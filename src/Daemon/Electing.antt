-- ===== src/Daemon/Electing.antt =====
-- runElecting of node/internal/daemon/daemon.go. Times are seconds since the phase began.
pub mod Outcome
pub mod Unique
use cluster_os.Prelude.{
  ℕ, suc, ◌+◌, String, Bool, true, false, ◌&&◌, not, Option, none, some, List, [], ◌∷◌, ◌==◌, ltb,
  leb, if◌then◌else◌,
}
use cluster_os.Discovery.Member.{Member, get_cluster_size}
use cluster_os.Daemon.Node.{
  Daemon, Host, Phase, electing, provisioning, joining_cp, joining, publish_tag, drop_tags,
  set_phase, get_leader_tag,
}
use cluster_os.Daemon.Discovering.{Progress}
use cluster_os.Daemon.Election.{Healthz, compute_reachable_leader, find_running_leader}
use cluster_os.Daemon.ControlPlane.{is_in_cp_list}

-- One round of the loop that waits for a stable membership: the time at its start, whether the daemon is
-- being stopped, Serf's members, and the time at its end.
pub record Round : Type 0 where
  pub started : ℕ
  pub cancelled : Bool
  pub members : List Member
  pub elapsed : ℕ

-- The loop, with the largest count so far and the rounds in which it did not grow.
unfoldable pub stabilise : ℕ → ℕ → List Round → Progress
unfolding get_cluster_size
stabilise last_count stable [] = Progress.waiting
stabilise last_count stable (round ∷ rounds) =
    let count = get_cluster_size round.members in
    let grown = stabilise count 0 rounds in
    let same = stabilise last_count (suc stable) rounds in
    if not (ltb round.started 30)
    then Progress.done
    else if round.cancelled
    then Progress.cancelled
    else if ltb last_count count
    then grown
    else if leb 5 (suc stable) && leb 15 round.elapsed
    then Progress.done
    else same

-- What the election reads once the membership is stable: Serf's members, the health of k3s servers and
-- this node's IP.
pub record Ballot : Type 0 where
  pub members : List Member
  pub healthz : Healthz
  pub local_ip : String

abbrev pub stale_tags : List String
stale_tags = "k3s-server" ∷ "k3s-token" ∷ "munge-key" ∷ "k3s-nodes" ∷ "cp-servers" ∷ []

-- The tags are cleared before the wait.
unfoldable pub clear_stale_tags : Host → Daemon → Daemon
unfolding publish_tag drop_tags
clear_stale_tags host d = publish_tag host "phase" "electing" (drop_tags host stale_tags d)

-- A running leader is adopted, and joined in the way that its list asks for.
unfoldable pub adopt : Host → Ballot → String → Daemon → Daemon
adopt host ballot leader d =
    let adopted = record d { is_leader = false; leader_name = leader } in
    if is_in_cp_list (get_leader_tag "cp-servers" leader ballot.members) ballot.local_ip
    then set_phase host joining_cp adopted
    else set_phase host joining adopted

-- Without one, the election decides.
unfoldable pub elect : Host → Ballot → Daemon → Daemon
elect host ballot d =
    let (leader, wins) =
      compute_reachable_leader ballot.healthz host.version host.node_name ballot.members in
    let elected = record d { is_leader = wins; leader_name = leader } in
    set_phase host (if wins then provisioning else joining) elected

unfoldable pub decide : Host → Ballot → Daemon → Daemon
unfolding adopt elect
decide host ballot d =
    let existing_leader = find_running_leader ballot.healthz ballot.members in
    if not (existing_leader == "") then adopt host ballot existing_leader d else elect host ballot d

unfoldable pub after_wait : Progress → Host → Ballot → Daemon → Daemon × Progress
unfolding decide
after_wait Progress.done host ballot d = (decide host ballot d, Progress.done)
after_wait Progress.cancelled host ballot d = (d, Progress.cancelled)
after_wait Progress.waiting host ballot d = (d, Progress.waiting)

unfoldable pub run_electing : Host → List Round → Ballot → Daemon → Daemon × Progress
unfolding clear_stale_tags after_wait
run_electing host rounds ballot d =
    after_wait (stabilise 0 0 rounds) host ballot (clear_stale_tags host d)
