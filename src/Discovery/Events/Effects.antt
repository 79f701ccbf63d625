-- ===== src/Discovery/Events/Effects.antt =====
-- What member events (node/internal/discovery/serf.go) keep and establish in the cluster state.
use cluster_os.Prelude.{
  ℕ, String, ◌≡◌, ◌≢◌, ◌⊎◌, inl, inr, refl, sym, subst, false, some, List, [], ◌∷◌, ◌==◌, eq_iff,
  eq_refl, Bool-cases, Option-cases,
}
use cluster_os.Prelude.Maps.{Map, lookup, lookup-insert, every-insert, every-delete}
use cluster_os.Auth.{Result, ok, err, create_compact_join_token, verify_compact_join_token}
use cluster_os.Auth.Tokens.{verify_compact_exact}
use cluster_os.State.{
  Node, ClusterState, NodeStatus, add_node, update_node_status, remove_node, get_node, write,
  joined,
}
use cluster_os.State.Invariant.{IsWf, apply, adds, removes, sets_status, apply-IsWf}
use cluster_os.Discovery.Member.{Member, tag}
use cluster_os.Discovery.Events.{
  EventType, join, leave, failed, update, reap, Discovery, Setup, member_to_node, admit, admit_if,
  handle_member_join, dispatch, handle_member, handle_member_event,
}

-- The node that an admitted member becomes, before it is stamped with times.
abbrev admitted : Setup → Member → Node
admitted setup member = record (member_to_node setup.parse_ip member) { status = NodeStatus.alive }

-- The member's auth tag is the compact token of its node_id tag under the key of the cluster.
abbrev pub HasToken : Setup → Map String → Type 0
HasToken setup tags =
    create_compact_join_token setup.codec setup.cluster_auth (tag "node_id" tags) ≡ tag "auth" tags

admit_if-cases :
    (r : Result (Unit {0})) (setup : Setup) (seen now : ℕ) (member : Member) (sd : Discovery)
    → (admit_if r setup seen now member sd ≡ sd)
      ⊎ ((r ≡ ok tt) × (admit_if r setup seen now member sd ≡ admit setup seen now member sd))
unfolding admit_if
admit_if-cases (err e) setup seen now member sd = inl refl
admit_if-cases (ok t) setup seen now member sd = inr (refl, refl)

-- A join changes nothing, or it admits a member of another node that has the token.
join_cases :
    (setup : Setup) (seen now : ℕ) (member : Member) (sd : Discovery)
    → (handle_member_join setup seen now member sd ≡ sd)
      ⊎ (HasToken setup member.tags
          × (handle_member_join setup seen now member sd ≡ admit setup seen now member sd))
unfolding handle_member_join
join_cases setup seen now member sd =
    let node_id = tag "node_id" member.tags in
    let token = tag "auth" member.tags in
    let verdict = verify_compact_join_token setup.codec setup.cluster_auth node_id token in
    elim (Bool-cases (node_id == setup.local_id)) [
      | inl e ↦ inl (rw e)
      | inr e ↦ elim (Bool-cases (token == "")) [
        | inl f ↦ inl (rw (e, f))
        | inr f ↦ elim (admit_if-cases verdict setup seen now member sd) [
          | inl same ↦ inl (rw (e, f) same)
          | inr (good, new) ↦ inr (
            (verify_compact_exact setup.codec setup.cluster_auth node_id token).0 good,
            rw (e, f) new,
          )
        ]
      ]
    ]

admit-IsWf :
    (setup : Setup) (seen now : ℕ) (member : Member) (sd : Discovery)
    → IsWf sd.state
    → IsWf (admit setup seen now member sd).state
unfolding admit apply
admit-IsWf setup seen now member sd w = apply-IsWf (adds (admitted setup member) seen now) w

dispatch-IsWf :
    (event : EventType) (setup : Setup) (seen now : ℕ) (node_id : String) (member : Member)
    (sd : Discovery)
    → IsWf sd.state
    → IsWf (dispatch event setup seen now node_id member sd).state
unfolding dispatch apply
dispatch-IsWf join setup seen now node_id member sd w = elim (join_cases setup seen now member sd) [
  | inl same ↦ subst (λ (d : Discovery). IsWf d.state) (sym same) w
  | inr (good, new) ↦
      subst (λ (d : Discovery). IsWf d.state) (sym new) (admit-IsWf setup seen now member sd w)
]
dispatch-IsWf update setup seen now node_id member sd w = admit-IsWf setup seen now member sd w
dispatch-IsWf leave setup seen now node_id member sd w =
    apply-IsWf (sets_status node_id NodeStatus.left seen) w
dispatch-IsWf failed setup seen now node_id member sd w =
    apply-IsWf (sets_status node_id NodeStatus.failed seen) w
dispatch-IsWf reap setup seen now node_id member sd w = apply-IsWf (removes node_id) w

handle_member-IsWf :
    (event : EventType) (setup : Setup) (seen now : ℕ) (member : Member) (sd : Discovery)
    → IsWf sd.state
    → IsWf (handle_member event setup seen now member sd).state
unfolding handle_member
handle_member-IsWf event setup seen now member sd w =
    elim (Bool-cases (tag "node_id" member.tags == "")) [
      | inl e ↦ rw e w
      | inr e ↦ rw e (dispatch-IsWf event setup seen now (tag "node_id" member.tags) member sd w)
    ]

-- Whatever the event and its members, the cluster state stays well formed.
pub handle_member_event-IsWf :
    (event : EventType) (setup : Setup) (members : List (Member × ℕ × ℕ)) (sd : Discovery)
    → IsWf sd.state
    → IsWf (handle_member_event event setup members sd).state
unfolding handle_member_event
handle_member_event-IsWf event setup [] sd w = w
handle_member_event-IsWf event setup ((member, seen, now) ∷ members) sd w =
    handle_member_event-IsWf event setup members (handle_member event setup seen now member sd)
      (handle_member-IsWf event setup seen now member sd w)

-- The node stands under its id and is the local one or carries the token of its id.
abbrev pub IsVouched : Setup → String → Node → Type 0
IsVouched setup id n =
    (n.id ≡ id)
    × ((id ≡ setup.local_id)
        ⊎ (create_compact_join_token setup.codec setup.cluster_auth id ≡ tag "auth" n.tags))

abbrev pub AllVouched : Setup → ClusterState → Type 0
AllVouched setup cs = (id : String) (n : Node) → lookup id cs.nodes ≡ some n → IsVouched setup id n

write-AllVouched :
    (setup : Setup) (id : String) (f : Node → Node) (cs : ClusterState)
    → ((n : Node) → IsVouched setup id n → IsVouched setup id (f n))
    → AllVouched setup cs
    → AllVouched setup (write id f cs)
unfolding write
write-AllVouched setup id f cs keep all = elim (Option-cases (lookup id cs.nodes)) [
  | inl e ↦ rw (e, write) all
  | inr (n, e) ↦
      rw (e, write) (every-insert (IsVouched setup) id (f n) cs.nodes (keep n (all id n e)) all)
]

admit-AllVouched :
    (setup : Setup) (seen now : ℕ) (member : Member) (sd : Discovery)
    → HasToken setup member.tags
    → AllVouched setup sd.state
    → AllVouched setup (admit setup seen now member sd).state
unfolding admit add_node member_to_node
admit-AllVouched setup seen now member sd good all =
    every-insert (IsVouched setup) (tag "node_id" member.tags) _ sd.state.nodes (refl, inr good) all

dispatch-AllVouched :
    (event : EventType) (setup : Setup) (seen now : ℕ) (node_id : String) (member : Member)
    (sd : Discovery)
    → event ≢ update
    → AllVouched setup sd.state
    → AllVouched setup (dispatch event setup seen now node_id member sd).state
unfolding dispatch update_node_status remove_node
dispatch-AllVouched update setup seen now node_id member sd other all = absurd (other refl)
dispatch-AllVouched join setup seen now node_id member sd other all =
    elim (join_cases setup seen now member sd) [
      | inl same ↦ subst (λ (d : Discovery). AllVouched setup d.state) (sym same) all
      | inr (good, new) ↦
          subst (λ (d : Discovery). AllVouched setup d.state) (sym new)
            (admit-AllVouched setup seen now member sd good all)
    ]
dispatch-AllVouched leave setup seen now node_id member sd other all =
    write-AllVouched setup node_id _ sd.state (λ n v. v) all
dispatch-AllVouched failed setup seen now node_id member sd other all =
    write-AllVouched setup node_id _ sd.state (λ n v. v) all
dispatch-AllVouched reap setup seen now node_id member sd other all =
    every-delete (IsVouched setup) node_id sd.state.nodes all

-- Joins, leaves, failures and reaps let nobody in without the token: if every node of the cluster state
-- is the local one or carries the token of its id, then that is so after any event but an update.
pub handle_member_event-AllVouched :
    (event : EventType) (setup : Setup) (members : List (Member × ℕ × ℕ)) (sd : Discovery)
    → event ≢ update
    → AllVouched setup sd.state
    → AllVouched setup (handle_member_event event setup members sd).state
unfolding handle_member_event handle_member
handle_member_event-AllVouched event setup [] sd other all = all
handle_member_event-AllVouched event setup ((member, seen, now) ∷ members) sd other all =
    handle_member_event-AllVouched event setup members
      (handle_member event setup seen now member sd) other
      (elim (Bool-cases (tag "node_id" member.tags == "")) [
        | inl e ↦ rw e all
        | inr e ↦ rw e (
            dispatch-AllVouched event setup seen now (tag "node_id" member.tags) member sd other
              all)
      ])

-- An update event lets any member in that has a node id, whatever its token: the node is alive in the
-- cluster state, under the member's tags and with no role.
pub update_admits :
    (setup : Setup) (seen now : ℕ) (member : Member) (sd : Discovery)
    → tag "node_id" member.tags ≢ ""
    → (n : Node) × (get_node
          (tag "node_id" member.tags)
          (handle_member_event update setup ((member, seen, now) ∷ []) sd).state
        ≡ some n)
      × (n.status ≡ NodeStatus.alive)
      × (n.tags ≡ member.tags)
      × (n.roles ≡ [])
unfolding handle_member_event handle_member get_node add_node
update_admits setup seen now member sd named =
    let id = tag "node_id" member.tags in
    let n : Node = record (admitted setup member) {
      last_seen = seen;
      joined_at = joined (lookup id sd.state.nodes) now;
    } in
    elim (Bool-cases (id == "")) [
      | inl e ↦ absurd (named ((eq_iff id "").0 e))
      | inr e ↦ (n, rw e (rw lookup-insert (rw eq_refl refl)), refl, refl, refl)
    ]

-- A join with the token of its id lets the member in.
pub join_admits :
    (setup : Setup) (seen now : ℕ) (member : Member) (sd : Discovery)
    → (tag "node_id" member.tags == "") ≡ false
    → (tag "node_id" member.tags == setup.local_id) ≡ false
    → (tag "auth" member.tags == "") ≡ false
    → HasToken setup member.tags
    → (n : Node) × (get_node
          (tag "node_id" member.tags)
          (handle_member_event join setup ((member, seen, now) ∷ []) sd).state
        ≡ some n)
      × (n.status ≡ NodeStatus.alive)
      × (n.name ≡ member.name)
      × (n.tags ≡ member.tags)
unfolding handle_member_event handle_member get_node add_node
join_admits setup seen now member sd named other sealed token =
    let id = tag "node_id" member.tags in
    let n : Node = record (admitted setup member) {
      last_seen = seen;
      joined_at = joined (lookup id sd.state.nodes) now;
    } in
    let good =
      (verify_compact_exact setup.codec setup.cluster_auth id (tag "auth" member.tags)).1 token in
    (n, rw (named, other, sealed, good) (rw lookup-insert (rw eq_refl refl)), refl, refl, refl)
