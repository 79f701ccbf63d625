-- ===== src/Daemon/Election/Agreement.antt =====
-- When the nodes of a cluster agree on their leader, and when they do not (computeReachableLeader and
-- findCompetingLeader of node/internal/daemon/daemon.go).
use cluster_os.Prelude.{
  ℕ, String, ◌≡◌, ◌≢◌, ◌⊎◌, inl, inr, refl, sym, ap, subst, ◌∙◌, true, false, not, List, [], ◌∷◌,
  ◌==◌, filter, elem, if◌then◌else◌, str_ltb, str_ltb_total, str_ltb_trans, str_ltb_irrefl,
  sort_strings, eq_iff, eq_refl, arith, Bool-cases,
}
use cluster_os.Prelude.Int.{ℤ, pos, negsuc, atoi}
use cluster_os.Discovery.Member.{Member, tag, get_alive_members}
use cluster_os.Daemon.Election.{
  first, compute_leader, compute_reachable_leader, candidates, Healthz, version_mismatch,
  strip_dirty, is_established, find_competing_leader, gives_way,
}
use cluster_os.Daemon.Election.Winner.{
  names, alive_names, first-sort_cong, compute_leader-first, is_eligible, elem-candidates,
}

abbrev pub AllEstablished : List Member → Type 0
AllEstablished [] = Unit
AllEstablished (m ∷ ms) = (is_established m ≡ true) × AllEstablished ms

-- The node count that a member publishes.
abbrev pub k3s_nodes : Member → ℤ
k3s_nodes m = (atoi (tag "k3s-nodes" m.tags)).0

-- Every member of the list may be elected by a node of this version with these probes.
abbrev pub AllEligible : Healthz → String → List Member → Type 0
AllEligible healthz my_ver [] = Unit
AllEligible healthz my_ver (m ∷ ms) =
    (is_eligible healthz my_ver m ≡ true) × AllEligible healthz my_ver ms

filter_eligible :
    (healthz : Healthz) (my_ver : String) (ms : List Member)
    → AllEligible healthz my_ver ms
    → filter (is_eligible healthz my_ver) ms ≡ ms
unfolding filter
filter_eligible healthz my_ver [] h = refl
filter_eligible healthz my_ver (m ∷ ms) h =
    rw h.0 (ap (λ l. m ∷ l) (filter_eligible healthz my_ver ms h.1))

-- The names among which a node chooses are those of the alive members, if it is one of them and all
-- of them may be elected.
elem-choices :
    (healthz : Healthz) (my_ver my_name : String) (alive : List Member) (s : String)
    → elem my_name (names alive) ≡ true
    → AllEligible healthz my_ver alive
    → elem s (my_name ∷ candidates healthz my_ver my_name alive) ≡ elem s (names alive)
unfolding elem
elem-choices healthz my_ver my_name alive s there all = ground (
  arith,
  elem-candidates healthz my_ver my_name s alive,
  filter_eligible healthz my_ver alive all,
  eq_iff my_name s,
)

-- A node that counts itself among the alive members, and may elect each of them, elects the leader that
-- ComputeLeader names: the alive member with the least name.
pub reachable-compute_leader :
    (healthz : Healthz) (version my_name : String) (ms : List Member)
    → elem my_name (alive_names ms) ≡ true
    → AllEligible healthz (strip_dirty version) (get_alive_members ms)
    → (compute_reachable_leader healthz version my_name ms).0 ≡ compute_leader ms
unfolding compute_reachable_leader elem
reachable-compute_leader healthz version my_name ms there all =
    first-sort_cong _ (alive_names ms) my_name (rw eq_refl refl)
      (λ s. elem-choices healthz (strip_dirty version) my_name (get_alive_members ms) s there all)
    ∙ sym (compute_leader-first ms)

-- Two nodes, each with its own view, version and probes, elect the same leader if their views have the
-- same alive names, both are among them, and each may elect every alive member of its view.
pub reachable_leaders_agree :
    (healthz_a healthz_b : Healthz) (version_a version_b a b : String) (ms ns : List Member)
    → ((s : String) → elem s (alive_names ms) ≡ elem s (alive_names ns))
    → elem a (alive_names ms) ≡ true
    → elem b (alive_names ns) ≡ true
    → AllEligible healthz_a (strip_dirty version_a) (get_alive_members ms)
    → AllEligible healthz_b (strip_dirty version_b) (get_alive_members ns)
    → (compute_reachable_leader healthz_a version_a a ms).0
      ≡ (compute_reachable_leader healthz_b version_b b ns).0
reachable_leaders_agree healthz_a healthz_b version_a version_b a b ms ns same in_a in_b all_a
      all_b =
    reachable-compute_leader healthz_a version_a a ms in_a all_a
    ∙ compute_leader-first ms
    ∙ first-sort_cong (alive_names ms) (alive_names ns) a in_a same
    ∙ sym (compute_leader-first ns)
    ∙ sym (reachable-compute_leader healthz_b version_b b ns in_b all_b)

-- Every member of another name runs another version.
abbrev pub AllMismatch : String → String → List Member → Type 0
AllMismatch my_ver my_name [] = Unit
AllMismatch my_ver my_name (m ∷ ms) =
    ((m.name ≡ my_name) ⊎ (version_mismatch my_ver m ≡ true)) × AllMismatch my_ver my_name ms

no_candidates :
    (healthz : Healthz) (my_ver my_name : String) (ms : List Member)
    → AllMismatch my_ver my_name ms
    → candidates healthz my_ver my_name ms ≡ []
unfolding candidates
no_candidates healthz my_ver my_name [] h = refl
no_candidates healthz my_ver my_name (m ∷ ms) (inl same, h) =
    ground (arith, eq_iff m.name my_name, no_candidates healthz my_ver my_name ms h)
no_candidates healthz my_ver my_name (m ∷ ms) (inr other, h) =
    ground (arith, no_candidates healthz my_ver my_name ms h)

-- A node all of whose alive peers run another version elects itself, whatever the names: two such nodes
-- both become leaders.
pub mismatch_elects_self :
    (healthz : Healthz) (version my_name : String) (ms : List Member)
    → AllMismatch (strip_dirty version) my_name (get_alive_members ms)
    → compute_reachable_leader healthz version my_name ms ≡ (my_name, true)
unfolding compute_reachable_leader sort_strings first
mismatch_elects_self healthz version my_name ms h =
    rw (no_candidates healthz (strip_dirty version) my_name (get_alive_members ms) h)
      (rw eq_refl refl)

str_ltb_flip : (a b : String) → a ≢ b → str_ltb a b ≡ not (str_ltb b a)
str_ltb_flip a b differ = elim (Bool-cases (str_ltb a b)) [
  | inl e ↦ ground (arith, str_ltb_trans a b a, str_ltb_irrefl a)
  | inr e ↦ elim (Bool-cases (str_ltb b a)) [
    | inl f ↦ rw (e, f)
    | inr f ↦ absurd (differ (str_ltb_total a b e f))
  ]
]

-- Of two leaders with different names exactly one gives way.
gives_way_flip :
    (a b : String) (ca cb : ℤ) → a ≢ b → gives_way a ca b cb ≡ not (gives_way b cb a ca)
unfolding gives_way
gives_way_flip a b (pos m) (pos n) differ = ground (arith, str_ltb_flip a b differ)
gives_way_flip a b (pos m) (negsuc n) differ = refl
gives_way_flip a b (negsuc m) (pos n) differ = refl
gives_way_flip a b (negsuc m) (negsuc n) differ = ground (arith, str_ltb_flip a b differ)

-- Members that are no established leaders do not count.
find_competing-filter :
    (my_name : String) (count : ℕ) (ms : List Member)
    → find_competing_leader my_name count ms
      ≡ find_competing_leader my_name count (filter is_established ms)
unfolding find_competing_leader filter
find_competing-filter my_name count [] = refl
find_competing-filter my_name count (m ∷ ms) = elim (Bool-cases (is_established m)) [
  | inl e ↦ rw e (rw e (rw (find_competing-filter my_name count ms) refl))
  | inr e ↦ ground (arith, find_competing-filter my_name count ms)
]

established_filter : (ms : List Member) → AllEstablished (filter is_established ms)
unfolding filter
established_filter [] = tt
established_filter (m ∷ ms) = ground (arith, established_filter ms)

-- What the leader `me` finds among two established leaders, itself and another.
find_competing-pair :
    (me other : Member) (count : ℕ)
    → me.name ≢ other.name
    → is_established other ≡ true
    → (find_competing_leader me.name count (me ∷ other ∷ [])
        ≡ (if gives_way me.name (pos count) other.name (k3s_nodes other) then other.name else ""))
      × (find_competing_leader me.name count (other ∷ me ∷ [])
          ≡ (if gives_way me.name (pos count) other.name (k3s_nodes other) then other.name else ""))
unfolding find_competing_leader
find_competing-pair me other count differ e =
    let apart : (other.name == me.name) ≡ false = ground (arith, eq_iff other.name me.name) in
    (ground (arith, eq_refl me.name), ground (arith, eq_refl me.name))

-- When two clusters merge, so that a member list has exactly two established leaders, with different
-- names, and each leader's own node count is the one that its k3s-nodes tag publishes, then exactly one
-- of them finds the other as a competing leader and the other finds none.
pub one_leader_yields :
    (x y : Member) (cx cy : ℕ) (ms : List Member)
    → filter is_established ms ≡ x ∷ y ∷ []
    → x.name ≢ y.name
    → k3s_nodes x ≡ pos cx
    → k3s_nodes y ≡ pos cy
    → ((find_competing_leader x.name cx ms ≡ y.name) × (find_competing_leader y.name cy ms ≡ ""))
      ⊎ ((find_competing_leader x.name cx ms ≡ "") × (find_competing_leader y.name cy ms ≡ x.name))
one_leader_yields x y cx cy ms two differ count_x count_y =
    let both : AllEstablished (x ∷ y ∷ []) = subst AllEstablished two (established_filter ms) in
    let fx = find_competing-filter x.name cx ms ∙ ap (find_competing_leader x.name cx) two in
    let fy = find_competing-filter y.name cy ms ∙ ap (find_competing_leader y.name cy) two in
    ground (
      arith,
      fx,
      fy,
      (find_competing-pair x y cx differ both.1.0).0,
      (find_competing-pair y x cy (λ e. differ (sym e)) both.0).1,
      gives_way_flip x.name y.name (pos cx) (pos cy) differ,
    )
