-- ===== src/Daemon/Election/Winner.antt =====
-- Who wins an election (computeReachableLeader of node/internal/daemon/daemon.go and ComputeLeader of
-- node/internal/state/serf_election.go).
use cluster_os.Prelude.{
  String, ◌≡◌, inl, inr, refl, sym, ap, ◌∙◌, Bool, true, false, ◌&&◌, not, List, [], ◌∷◌, ◌==◌, map,
  filter, elem, str_ltb, sort_strings, map-sort_by, elem-sort_strings, sort_strings-IsSorted,
  IsSorted, not-str_ltb_of-elem, str_ltb_total, str_ltb_irrefl, ◌↔◌, eq_iff, eq_refl, arith,
  Bool-cases,
}
use cluster_os.Discovery.Member.{Member, is_alive, get_alive_members}
use cluster_os.Daemon.Election.{
  first, first_name, compute_leader, compute_reachable_leader, candidates, Healthz,
  version_mismatch, is_ghost, strip_dirty,
}

abbrev pub names : List Member → List String
names ms = map (λ m. m.name) ms

abbrev pub alive_names : List Member → List String
alive_names ms = names (get_alive_members ms)

-- The first of a sorted list stands in it, and nothing in the list is below it.
first_of_sorted :
    (ss : List String) (s : String)
    → IsSorted ss
    → elem s ss ≡ true
    → (elem (first ss) ss ≡ true) × (str_ltb s (first ss) ≡ false)
unfolding first elem
first_of_sorted [] s sorted h = absurd (ground arith)
first_of_sorted (t ∷ ts) s sorted h = (
  rw eq_refl refl,
  elim (Bool-cases (t == s)) [
    | inl e ↦ ground (arith, eq_iff t s, str_ltb_irrefl s)
    | inr e ↦ not-str_ltb_of-elem t s ts sorted.0 (ground arith)
  ],
)

pub first-sort_strings :
    (ss : List String) (s : String)
    → elem s ss ≡ true
    → (elem (first (sort_strings ss)) ss ≡ true) × (str_ltb s (first (sort_strings ss)) ≡ false)
first-sort_strings ss s h =
    let (there, least) =
      first_of_sorted (sort_strings ss) s (sort_strings-IsSorted ss) (rw elem-sort_strings h) in
    (rw elem-sort_strings at there, least)

-- Lists with the same members have the same first after sorting, as soon as there is a member.
pub first-sort_cong :
    (ss ts : List String) (s : String)
    → elem s ss ≡ true
    → ((x : String) → elem x ss ≡ elem x ts)
    → first (sort_strings ss) ≡ first (sort_strings ts)
first-sort_cong ss ts s h same =
    let a = first (sort_strings ss) in
    let b = first (sort_strings ts) in
    let in_ts = sym (same s) ∙ h in
    let a_there = (first-sort_strings ss s h).0 in
    let b_there = (first-sort_strings ts s in_ts).0 in
    str_ltb_total a b (first-sort_strings ts a (sym (same a) ∙ a_there)).1
      (first-sort_strings ss b (same b ∙ b_there)).1

first_name-names : (ms : List Member) → first_name ms ≡ first (names ms)
unfolding first_name first
first_name-names [] = refl
first_name-names (m ∷ ms) = refl

pub compute_leader-first :
    (ms : List Member) → compute_leader ms ≡ first (sort_strings (alive_names ms))
unfolding compute_leader get_alive_members
compute_leader-first ms =
    first_name-names _
    ∙ ap first (map-sort_by (λ (m : Member). m.name) (filter (λ m. is_alive m.status) ms))

-- With a member alive, ComputeLeader names an alive member, and no alive member has a lower name.
pub compute_leader_least :
    (ms : List Member) (s : String)
    → elem s (alive_names ms) ≡ true
    → (elem (compute_leader ms) (alive_names ms) ≡ true) × (str_ltb s (compute_leader ms) ≡ false)
compute_leader_least ms s h = rw compute_leader-first (first-sort_strings (alive_names ms) s h)

-- This node and its candidates.
abbrev pub choices : Healthz → String → String → List Member → List String
choices healthz version my_name ms =
    my_name ∷ candidates healthz (strip_dirty version) my_name (get_alive_members ms)

-- The leader of computeReachableLeader is this node or a candidate, and neither this node nor any
-- candidate has a lower name; the second result says whether it is this node.
pub compute_reachable_leader_least :
    (healthz : Healthz) (version my_name : String) (ms : List Member) (s : String)
    → elem s (choices healthz version my_name ms) ≡ true
    → (elem
          (compute_reachable_leader healthz version my_name ms).0
          (choices healthz version my_name ms)
        ≡ true)
      × (str_ltb s (compute_reachable_leader healthz version my_name ms).0 ≡ false)
      × (((compute_reachable_leader healthz version my_name ms).1 ≡ true)
          ↔ ((compute_reachable_leader healthz version my_name ms).0 ≡ my_name))
unfolding compute_reachable_leader
compute_reachable_leader_least healthz version my_name ms s h =
    let peers = candidates healthz (strip_dirty version) my_name (get_alive_members ms) in
    let least = first-sort_strings (my_name ∷ peers) s h in (least.0, least.1, eq_iff _ my_name)

-- Whether a member may be elected by a node of another name.
abbrev pub is_eligible : Healthz → String → Member → Bool
is_eligible healthz my_ver m = not (version_mismatch my_ver m) && not (is_ghost healthz m)

-- The candidates are exactly the names of the other members that may be elected.
pub elem-candidates :
    (healthz : Healthz) (my_ver my_name s : String) (ms : List Member)
    → elem s (candidates healthz my_ver my_name ms)
      ≡ (not (my_name == s) && elem s (names (filter (is_eligible healthz my_ver) ms)))
unfolding candidates elem filter
elem-candidates healthz my_ver my_name s [] = ground arith
elem-candidates healthz my_ver my_name s (m ∷ ms) = ground (
  arith,
  elem-candidates healthz my_ver my_name s ms,
  eq_iff m.name my_name,
  eq_iff m.name s,
  eq_iff my_name s,
)
