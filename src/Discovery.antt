-- ===== src/Discovery.antt =====
-- node/internal/discovery: the gossip layer over HashiCorp Serf, in its children.
pub mod Member
pub mod Tags
pub mod Events
pub mod Lan
pub mod Display
pub mod Creating
