-- ===== src/Slurm.antt =====
-- The daemons of SLURM: node/internal/services/slurm/controller/controller.go and
-- node/internal/services/slurm/worker/worker.go. What Start does to the munge key is in Daemon/Slurm.
pub mod Munge
pub mod Config
pub mod Controller
pub mod Worker
pub mod Restarts
pub mod Nodes
