-- ===== src/K3s.antt =====
-- node/internal/services/kubernetes/k3s, in the children.
pub mod Server
pub mod Agent
pub mod Files
pub mod Storage
pub mod Domain
pub mod Rancher
