-- ===== src/Daemon/Discovering.antt =====
-- runDiscovering of node/internal/daemon/daemon.go. Times are seconds since the phase began.
pub mod Ends
use cluster_os.Prelude.{ℕ, Bool, true, false, List, [], ◌∷◌, leb, if◌then◌else◌}
use cluster_os.Discovery.Member.{Member, get_cluster_size}
use cluster_os.Daemon.Node.{Daemon, Host, electing, set_phase}

-- One round of the loop: whether the daemon is being stopped, Serf's members, and the time.
pub record Look : Type 0 where
  pub cancelled : Bool
  pub members : List Member
  pub elapsed : ℕ

abbrev pub peer_wait_deadline : ℕ
peer_wait_deadline = 90

-- How a loop stands after the rounds that it was given.
pub data Progress : Type 0 where
  done cancelled waiting : Progress

unfoldable pub run_discovering : Host → List Look → Daemon → Daemon × Progress
unfolding get_cluster_size
run_discovering host [] d = (d, Progress.waiting)
run_discovering host (look ∷ looks) d =
    let rest = run_discovering host looks d in
    if look.cancelled
    then (d, Progress.cancelled)
    else if leb 2 (get_cluster_size look.members)
    then (set_phase host electing d, Progress.done)
    else if leb peer_wait_deadline look.elapsed
    then (set_phase host electing d, Progress.done)
    else rest
