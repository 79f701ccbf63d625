-- ===== src/Daemon/Electing/Outcome.antt =====
-- What runElecting (node/internal/daemon/daemon.go) ends with.
use cluster_os.Prelude.{
  ℕ, suc, ◌+◌, ◌*◌, ◌≤◌, ◌<◌, ◌≡◌, inl, inr, refl, false, ◌&&◌, List, [], ◌∷◌, ◌==◌, ltb, leb,
  length, arith, Bool-cases, if◌then◌else◌,
}
use cluster_os.Discovery.Member.{get_cluster_size}
use cluster_os.Daemon.Election.{compute_reachable_leader, find_running_leader}
use cluster_os.Daemon.ControlPlane.{is_in_cp_list}
use cluster_os.Daemon.Node.{
  Daemon, Host, provisioning, joining_cp, joining, set_phase, get_leader_tag,
}
use cluster_os.Daemon.Discovering.{Progress}
use cluster_os.Daemon.Electing.{
  Round, stabilise, Ballot, adopt, elect, decide, clear_stale_tags, run_electing,
}

-- Nobody stops the daemon, and the rounds start at least two seconds apart, the first at `start` or later.
abbrev pub Rounds : ℕ → List Round → Type 0
Rounds start [] = Unit
Rounds start (round ∷ rounds) =
    (round.cancelled ≡ false) × (start ≤ round.started) × Rounds (start + 2) rounds

stabilise_from :
    (start last_count stable : ℕ) (rounds : List Round)
    → Rounds start rounds
    → 32 ≤ start + 2 * length rounds
    → start ≤ 31
    → stabilise last_count stable rounds ≡ Progress.done
unfolding stabilise
stabilise_from start last_count stable [] paced long early = absurd (omega arith)
stabilise_from start last_count stable (round ∷ rounds) paced long early =
    let count = get_cluster_size round.members in
    elim (Bool-cases (ltb round.started 30)) [
      | inr e ↦ rw e refl
      | inl e ↦
          let young : round.started < 30 = ground arith in
          let grown =
            stabilise_from (start + 2) count 0 rounds paced.2 (omega arith) (omega arith) in
          let same =
            stabilise_from (start + 2) last_count (suc stable) rounds paced.2 (omega arith)
              (omega arith) in
          rw (e, paced.0)
            (elim (Bool-cases (ltb last_count count)) [
              | inl f ↦ rw f grown
              | inr f ↦ rw f (elim (Bool-cases (leb 5 (suc stable) && leb 15 round.elapsed)) [
                | inl g ↦ rw g refl
                | inr g ↦ rw g same
              ])
            ])
    ]

-- With rounds two seconds apart and nobody stopping the daemon, the wait for a stable membership ends in
-- 16 rounds, and the election is decided, however the membership changes.
pub run_electing_ends :
    (host : Host) (rounds : List Round) (ballot : Ballot) (d : Daemon)
    → Rounds 0 rounds
    → 16 ≤ length rounds
    → run_electing host rounds ballot d
      ≡ (decide host ballot (clear_stale_tags host d), Progress.done)
unfolding run_electing
run_electing_ends host rounds ballot d paced long =
    rw (stabilise_from 0 0 0 rounds paced (omega arith) (omega arith)) refl

-- The decision: a running leader is always adopted, and never provisions; without one this node
-- provisions exactly if it is the elected leader, and a node that is not the leader joins.
pub decide_exact :
    (host : Host) (ballot : Ballot) (d : Daemon)
    → let running = find_running_leader ballot.healthz ballot.members in
      let elected =
        compute_reachable_leader ballot.healthz host.version host.node_name ballot.members in
      let after = decide host ballot d in
      (after.leader_name ≡ (if running == "" then elected.0 else running))
      × (after.is_leader ≡ (running == "" && elected.1))
      × (after.phase ≡ (
          if running == ""
          then (if elected.1 then provisioning else joining)
          else (if is_in_cp_list
                (get_leader_tag "cp-servers" running ballot.members)
                ballot.local_ip
              then joining_cp
              else joining)))
unfolding decide adopt elect set_phase
decide_exact host ballot d =
    elim (Bool-cases (find_running_leader ballot.healthz ballot.members == "")) [
      | inl e ↦ rw e (refl, refl, refl)
      | inr e ↦
          let leader = find_running_leader ballot.healthz ballot.members in
          let chosen =
            is_in_cp_list (get_leader_tag "cp-servers" leader ballot.members) ballot.local_ip in
          rw e (elim (Bool-cases chosen) [
            | inl f ↦ rw f (refl, refl, refl)
            | inr f ↦ rw f (refl, refl, refl)
          ])
    ]
