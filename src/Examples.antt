-- ===== src/Examples.antt =====
-- Concrete runs: the theorems applied to small clusters, and tests.
mod State
mod Auth
mod Discovery
mod Election
mod ControlPlane
mod Phases
mod Serving
mod Servers
mod Agents
mod Updating
mod Peers
mod Storage
mod Rancher
mod Stored
mod Lan
mod Slurm
mod Bridge
mod Files
mod Hostnames
mod Firewall
mod Startup
