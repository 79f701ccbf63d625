-- ===== src/Daemon/Election.antt =====
-- Leader election: node/internal/state/serf_election.go, and computeReachableLeader, findRunningLeader
-- and findCompetingLeader of node/internal/daemon/daemon.go.
pub mod Winner
pub mod Agreement
use Prim.Native.Char.{code}
use Prim.Native.String.{len, slice}
use text.Mathlib.Text.{find?, starts_with}
use cluster_os.Prelude.{
  eqb, ℕ, String, Bool, true, false, ◌&&◌, ◌||◌, not, Option, none, some, List, [], ◌∷◌, ◌==◌, map,
  filter, if◌then◌else◌, length, str_ltb, sort_strings, sort_by,
}
use cluster_os.Prelude.Int.{ℤ, pos, ltb_ℤ, eqb_ℤ, atoi}
use cluster_os.Discovery.Member.{Member, is_alive, get_alive_members, tag}

-- alive[0].Name after the sort
unfoldable pub first_name : List Member → String
first_name [] = ""
first_name (m ∷ ms) = m.name

-- ComputeLeader of serf_election.go, over serf.Members()
unfoldable pub compute_leader : List Member → String
unfolding first_name
compute_leader members =
    first_name (sort_by (λ m. m.name) (filter (λ m. is_alive m.status) members))

-- IsLeader of serf_election.go
unfoldable pub is_leader : String → List Member → Bool
is_leader node_name members =
    let leader = compute_leader members in not (leader == "") && leader == node_name

-- GetLeader of serf_election.go; `none` is its error
unfoldable pub get_leader : List Member → Option String
get_leader members =
    let leader = compute_leader members in if leader == "" then none else some leader

-- A version without its "-dirty" and what follows.
unfoldable pub strip_dirty : String → String
strip_dirty ver = elim (find? ver "-dirty") [ none ↦ ver | some idx ↦ slice ver 0 idx ]

trim_prefix : String → String → String
trim_prefix s prefix = if starts_with s prefix then slice s (len prefix) (len s) else s

-- s[:i] for the last index i of ':'
before_last_colon : String → Option String
before_last_colon String.[] = none
before_last_colon (String.◌∷◌ c s) = elim (before_last_colon s) [
  | some r ↦ some (String.◌∷◌ c r)
  | none ↦ if eqb (code c) 58 then some String.[] else none
]

-- extractHost
unfoldable pub extract_host : String → String
unfolding trim_prefix before_last_colon
extract_host raw_url =
    let s = trim_prefix (trim_prefix raw_url "https://") "http://" in
    elim (before_last_colon s) [ none ↦ s | some host ↦ host ]

-- The HTTP status of https://host:6443/healthz, or `none` for a connection error. The network decides.
abbrev pub Healthz : Type 0
Healthz = String → Option ℕ

-- probeK3sHealthz: whether it returns no error
unfoldable pub probe_k3s_healthz : Healthz → String → Bool
probe_k3s_healthz healthz host = elim (healthz host) [
  | none ↦ false
  | some code ↦ eqb code 200 || eqb code 401
]

-- A peer of another version is left out, unless one of the two versions is empty.
unfoldable pub version_mismatch : String → Member → Bool
unfolding strip_dirty tag
version_mismatch my_ver m =
    let peer_ver = strip_dirty (tag "ver" m.tags) in
    not (my_ver == "") && (not (peer_ver == "") && not (peer_ver == my_ver))

-- A peer whose k3s-server tag names a host that is not healthy is left out.
unfoldable pub is_ghost : Healthz → Member → Bool
unfolding extract_host probe_k3s_healthz tag
is_ghost healthz m =
    let url = tag "k3s-server" m.tags in
    not (url == "") && not (probe_k3s_healthz healthz (extract_host url))

-- The loop of computeReachableLeader: the names of the peers that may be elected.
unfoldable pub candidates : Healthz → String → String → List Member → List String
candidates healthz my_ver my_name [] = []
candidates healthz my_ver my_name (m ∷ ms) =
    let rest = candidates healthz my_ver my_name ms in
    if m.name == my_name
    then rest
    else if version_mismatch my_ver m
    then rest
    else if is_ghost healthz m
    then rest
    else m.name ∷ rest

unfoldable pub first : List String → String
first [] = ""
first (s ∷ ss) = s

-- computeReachableLeader: the leader, and whether this node is it
unfoldable pub compute_reachable_leader : Healthz → String → String → List Member → String × Bool
unfolding strip_dirty candidates first get_alive_members
compute_reachable_leader healthz version my_name members =
    let names =
      my_name ∷ candidates healthz (strip_dirty version) my_name (get_alive_members members) in
    let leader = first (sort_strings names) in (leader, leader == my_name)

-- An alive member that is ready and names a k3s server.
unfoldable pub is_established : Member → Bool
unfolding tag
is_established m =
    is_alive m.status && (tag "phase" m.tags == "ready" && not (tag "k3s-server" m.tags == ""))

-- findRunningLeader
unfoldable pub find_running_leader : Healthz → List Member → String
find_running_leader healthz [] = ""
find_running_leader healthz (m ∷ ms) =
    let rest = find_running_leader healthz ms in
    if not (is_established m)
    then rest
    else if not (probe_k3s_healthz healthz (extract_host (tag "k3s-server" m.tags)))
    then rest
    else m.name

-- Whether a leader with `mine` nodes gives way to one with `theirs`.
unfoldable pub gives_way : String → ℤ → String → ℤ → Bool
gives_way my_name mine their_name theirs =
    ltb_ℤ mine theirs || (eqb_ℤ theirs mine && str_ltb their_name my_name)

-- findCompetingLeader, with the count of countK3sNodes
unfoldable pub find_competing_leader : String → ℕ → List Member → String
find_competing_leader my_name my_k3s_count [] = ""
find_competing_leader my_name my_k3s_count (m ∷ ms) =
    let rest = find_competing_leader my_name my_k3s_count ms in
    if m.name == my_name
    then rest
    else if not (is_established m)
    then rest
    else if gives_way my_name (pos my_k3s_count) m.name (atoi (tag "k3s-nodes" m.tags)).0
    then m.name
    else rest

-- assertStillLeader: whether it returns no error
unfoldable pub assert_still_leader : String → List Member → Bool
unfolding is_leader
assert_still_leader node_name members = is_leader node_name members
