-- ===== src/State/Invariant.antt =====
-- Histories of the cluster state (node/internal/state/types.go): every write as an operation.
use cluster_os.Prelude.{
  ℕ, String, ◌≡◌, refl, Bool, false, Option, none, some, List, [], ◌∷◌, ◌==◌, eq_iff, arith, inl,
  inr, Option-cases, Bool-cases, ap,
}
use cluster_os.Prelude.Maps.{
  Map, KeysOnce, KeysOnce-insert, KeysOnce-delete, lookup, insert, lookup-insert, lookup-delete,
}
use cluster_os.State.{
  Ip, Node, NodeStatus, ClusterState, new_cluster_state, set_leader, remove_leader,
  set_local_node_id, add_node, remove_node, update_node_status, update_node_tags,
  update_node_tailscale_ip, write, joined,
}

-- The writing methods, with their arguments and clock readings.
pub data Op : Type 0 where
  adds : Node → ℕ → ℕ → Op
  removes : String → Op
  sets_status : String → NodeStatus → ℕ → Op
  sets_tags : String → Map String → ℕ → Op
  sets_ip : String → Option Ip → ℕ → Op
  sets_leader : String → String → Op
  removes_leader : String → Op
  sets_local : String → Op

unfoldable pub apply : Op → ClusterState → ClusterState
unfolding add_node remove_node update_node_status update_node_tags update_node_tailscale_ip
    set_leader remove_leader set_local_node_id
apply (adds node seen now) cs = add_node node seen now cs
apply (removes id) cs = remove_node id cs
apply (sets_status id st now) cs = update_node_status id st now cs
apply (sets_tags id ts now) cs = update_node_tags id ts now cs
apply (sets_ip id ip now) cs = update_node_tailscale_ip id ip now cs
apply (sets_leader role id) cs = set_leader role id cs
apply (removes_leader role) cs = remove_leader role cs
apply (sets_local id) cs = set_local_node_id id cs

unfoldable pub run : List Op → ClusterState → ClusterState
run [] cs = cs
run (op ∷ ops) cs = run ops (apply op cs)

-- Each key is held once, and a node stands under its own id.
pub record IsWf (cs : ClusterState) : Type 0 where
  pub nodes_once : KeysOnce cs.nodes
  pub leaders_once : KeysOnce cs.leaders
  pub own_id : (k : String) (n : Node) → lookup k cs.nodes ≡ some n → n.id ≡ k

pub new-IsWf : IsWf new_cluster_state
unfolding new_cluster_state lookup
new-IsWf = record { nodes_once = tt; leaders_once = tt; own_id = λ k n h. ground arith }

-- Putting a node under its own id keeps the invariant.
insert-IsWf :
    {cs : ClusterState} (id : String) (n : Node)
    → n.id ≡ id
    → IsWf cs
    → IsWf (record cs { nodes = insert id n cs.nodes })
insert-IsWf {cs} id n e w = record {
  nodes_once = KeysOnce-insert id n cs.nodes w.nodes_once;
  leaders_once = w.leaders_once;
  own_id = λ k m. rw lookup-insert (λ h. ground (arith, eq_iff id k, w.own_id k m));
}

write-IsWf :
    {cs : ClusterState} (id : String) (f : Node → Node)
    → ((n : Node) → (f n).id ≡ n.id)
    → IsWf cs
    → IsWf (write id f cs)
unfolding write
write-IsWf {cs} id f same w = elim (Option-cases (lookup id cs.nodes)) [
  | inl e ↦ rw (e, write) w
  | inr found ↦
      rw (found.1, write)
        (insert-IsWf id (f found.0) (ground (arith, same found.0, w.own_id id found.0)) w)
]

pub apply-IsWf : (op : Op) {cs : ClusterState} → IsWf cs → IsWf (apply op cs)
unfolding apply
apply-IsWf (adds node seen now) w = insert-IsWf node.id _ refl w
apply-IsWf (removes id) {cs} w = record {
  nodes_once = KeysOnce-delete id cs.nodes w.nodes_once;
  leaders_once = w.leaders_once;
  own_id = λ k m. rw lookup-delete (λ h. ground (arith, w.own_id k m));
}
apply-IsWf (sets_status id st now) w = write-IsWf id _ (λ n. refl) w
apply-IsWf (sets_tags id ts now) w = write-IsWf id _ (λ n. refl) w
apply-IsWf (sets_ip id ip now) w = write-IsWf id _ (λ n. refl) w
apply-IsWf (sets_leader role id) {cs} w = record {
  nodes_once = w.nodes_once;
  leaders_once = KeysOnce-insert role id cs.leaders w.leaders_once;
  own_id = w.own_id;
}
apply-IsWf (removes_leader role) {cs} w = record {
  nodes_once = w.nodes_once;
  leaders_once = KeysOnce-delete role cs.leaders w.leaders_once;
  own_id = w.own_id;
}
apply-IsWf (sets_local id) w = record {
  nodes_once = w.nodes_once;
  leaders_once = w.leaders_once;
  own_id = w.own_id;
}

-- After any sequence of writes each key is held once and every node stands under its own id.
pub run-IsWf : (ops : List Op) (cs : ClusterState) → IsWf cs → IsWf (run ops cs)
unfolding run
run-IsWf [] cs w = w
run-IsWf (op ∷ ops) cs w = run-IsWf ops (apply op cs) (apply-IsWf op w)

-- Whether an operation removes the node of an id.
abbrev pub removes_id : String → Op → Bool
removes_id id (removes other) = other == id
removes_id id _ = false

abbrev pub NeverRemoved : String → List Op → Type 0
NeverRemoved id [] = Unit
NeverRemoved id (op ∷ ops) = (removes_id id op ≡ false) × NeverRemoved id ops

abbrev pub joined_of : Option Node → Option ℕ
joined_of none = none
joined_of (some n) = some n.joined_at

abbrev pub joined_at? : String → ClusterState → Option ℕ
joined_at? id cs = joined_of (lookup id cs.nodes)

joined_of-insert :
    (id other : String) (n : Node) (m : Map Node) (t : ℕ)
    → (other ≡ id → n.joined_at ≡ t)
    → joined_of (lookup id m) ≡ some t
    → joined_of (lookup id (insert other n m)) ≡ some t
joined_of-insert id other n m t same h = rw lookup-insert (elim (Bool-cases (other == id)) [
  | inl e ↦ rw e (ap some (same ((eq_iff other id).0 e)))
  | inr e ↦ rw e h
])

write-joined :
    (id other : String) (f : Node → Node) (cs : ClusterState) (t : ℕ)
    → ((n : Node) → (f n).joined_at ≡ n.joined_at)
    → joined_at? id cs ≡ some t
    → joined_at? id (write other f cs) ≡ some t
unfolding write
write-joined id other f cs t same h = elim (Option-cases (lookup other cs.nodes)) [
  | inl e ↦ rw (e, write) h
  | inr found ↦
      rw (found.1, write)
        (joined_of-insert id other (f found.0) cs.nodes t
          (λ e. ground (arith, same found.0, found.1)) h)
]

joined-joined_of : (o : Option Node) (now t : ℕ) → joined_of o ≡ some t → joined o now ≡ t
unfolding joined
joined-joined_of none now t h = ground arith
joined-joined_of (some n) now t h = ground arith

apply-joined :
    (op : Op) (cs : ClusterState) (id : String) (t : ℕ)
    → removes_id id op ≡ false
    → joined_at? id cs ≡ some t
    → joined_at? id (apply op cs) ≡ some t
unfolding apply
apply-joined (adds node seen now) cs id t keep h =
    joined_of-insert id node.id _ cs.nodes t
      (λ e. joined-joined_of (lookup node.id cs.nodes) now t (rw e h)) h
apply-joined (removes other) cs id t keep h = ground (arith, lookup-delete other id cs.nodes)
apply-joined (sets_status other st now) cs id t keep h = write-joined id other _ cs t (λ n. refl) h
apply-joined (sets_tags other ts now) cs id t keep h = write-joined id other _ cs t (λ n. refl) h
apply-joined (sets_ip other ip now) cs id t keep h = write-joined id other _ cs t (λ n. refl) h
apply-joined (sets_leader role other) cs id t keep h = h
apply-joined (removes_leader role) cs id t keep h = h
apply-joined (sets_local other) cs id t keep h = h

-- The time at which a node joined survives every update, rejoin and status change: it changes only
-- through a removal of that node.
pub run-keeps_joined_at :
    (ops : List Op) (cs : ClusterState) (id : String) (t : ℕ)
    → NeverRemoved id ops
    → joined_at? id cs ≡ some t
    → joined_at? id (run ops cs) ≡ some t
unfolding run
run-keeps_joined_at [] cs id t keep h = h
run-keeps_joined_at (op ∷ ops) cs id t keep h =
    run-keeps_joined_at ops (apply op cs) id t keep.1 (apply-joined op cs id t keep.0 h)
