-- ===== src/Daemon/Machine.antt =====
-- runPhaseMachine of node/internal/daemon/daemon.go: which phase runs, and what an error of it leads to.
pub mod Sound
use text.Mathlib.Text.{find?}
use cluster_os.Prelude.{String, Bool, true, false, Option, none, some, List, [], ◌∷◌, if◌then◌else◌}
use cluster_os.Discovery.Member.{Member}
use cluster_os.Daemon.Election.{compute_leader}
use cluster_os.Daemon.Node.{
  Daemon, Host, Phase, discovering, electing, provisioning, joining, joining_cp, ready, set_phase,
}
use cluster_os.Daemon.Discovering.{Look, run_discovering}
use cluster_os.Daemon.Electing.{Round, Ballot, run_electing}
use cluster_os.Daemon.Provisioning
use cluster_os.Daemon.Provisioning.{Outcome, run_provisioning}
use cluster_os.Daemon.Joining
use cluster_os.Daemon.Joining.{run_joining, run_joining_cp}
use cluster_os.Daemon.Ready.{Tick, run_ready}

-- What the world answers in one turn of the machine, whichever phase runs, and Serf's members when
-- provisioning has failed.
pub record World : Type 0 where
  pub looks : List Look
  pub rounds : List Round
  pub ballot : Ballot
  pub provisions : Provisioning.Answers
  pub members : List Member
  pub joins : Joining.Answers
  pub ticks : List Tick

-- strings.Contains(error, "leadership lost")
unfoldable pub leadership_lost : String → Bool
leadership_lost e = elim (find? e "leadership lost") [ none ↦ false | some _ ↦ true ]

unfoldable pub after_provisioning : Host → List Member → Outcome → Daemon
after_provisioning host members (d, none) = d
after_provisioning host members (d, some e) =
    let follower = record d { is_leader = false; leader_name = compute_leader members } in
    if leadership_lost e then set_phase host joining follower else set_phase host electing d

-- An error of joining leads to a new election.
unfoldable pub after_joining : Host → Outcome → Daemon
after_joining host (d, none) = d
after_joining host (d, some e) = set_phase host electing d

unfoldable pub run_phase : Phase → Host → World → Daemon → Daemon
run_phase discovering host w d = (run_discovering host w.looks d).0
run_phase electing host w d = (run_electing host w.rounds w.ballot d).0
run_phase provisioning host w d =
    after_provisioning host w.members (run_provisioning host w.provisions d)
run_phase joining_cp host w d = after_joining host (run_joining_cp host w.joins d)
run_phase joining host w d = after_joining host (run_joining host w.joins d)
run_phase ready host w d = (run_ready host w.ticks d).daemon

-- One turn of the machine, and as many as the world answers.
unfoldable pub turn : Host → World → Daemon → Daemon
turn host w d = run_phase d.phase host w d

unfoldable pub run_machine : Host → List World → Daemon → Daemon
run_machine host [] d = d
run_machine host (w ∷ ws) d = run_machine host ws (turn host w d)
