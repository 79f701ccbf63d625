-- ===== src/Daemon.antt =====
-- node/internal/daemon/daemon.go and node/internal/state/serf_election.go, in the children.
pub mod Election
pub mod ControlPlane
pub mod Workers
pub mod Slurm
pub mod Node
pub mod Discovering
pub mod Electing
pub mod Provisioning
pub mod Joining
pub mod Ready
pub mod Machine
pub mod Updating
pub mod Hostname
pub mod Startup
pub mod Peers
pub mod Bridge
