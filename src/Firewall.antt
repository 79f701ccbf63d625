-- ===== src/Firewall.antt =====
-- The firewall of a node: the rules that setupFirewallRules of node/internal/daemon/daemon.go and
-- refreshFirewallRules of node/internal/services/kubernetes/k3s/server.go give to iptables. iptables and ufw
-- enter by the interface `Iptables`, whose laws are those of iptables(8), for a ufw that is not enabled.
pub mod Rules
pub mod Scripts
pub mod Lines
pub mod Runs
pub mod Kept
pub mod Setup
pub mod Refresh
pub mod Open
