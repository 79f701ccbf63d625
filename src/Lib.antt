-- ===== src/Lib.antt =====
-- Verification of the node agent of ClusterOS (node/internal). Every node runs one agent; the agents find
-- each other through Serf, elect a leader, and set up a K3s and SLURM cluster by what they publish in
-- their Serf tags.
--
-- The parts, and the files that model them:
--   * State: node/internal/state/types.go. ClusterState is a record of association lists; each method is
--     one function, since its mutex makes it one step, and takes the clock readings that it makes.
--   * Auth: node/internal/auth/cluster_auth.go. HMAC-SHA256, base64 and JSON are the interface Codec.
--   * Discovery: node/internal/discovery/serf.go. Discovery.Events has the handlers of member events,
--     which write the cluster state; Discovery.Tags has UpdateTags and DeleteTags over Serf's SetTags,
--     which is a parameter; Discovery.Member has the queries over Serf's member list.
--   * Daemon: node/internal/daemon/daemon.go and node/internal/state/serf_election.go.
--     Daemon.Election has ComputeLeader, computeReachableLeader, findRunningLeader and
--     findCompetingLeader; Daemon.ControlPlane has selectCPServers, isInCPList and the etcd peers;
--     Daemon.Workers has buildWorkerList and its watcher. Daemon.Node has the state of a daemon and the
--     small helpers of the phases, and Discovering, Electing, Provisioning, Joining and Ready have the
--     phases runDiscovering, runElecting, runProvisioning, runJoining with runJoiningCP, and runReady;
--     Daemon.Machine has runPhaseMachine, turn by turn.
--     Daemon.Updating has the update server and watcher, and Daemon.Peers the cache of failed Tailscale
--     peers with the discovery over it. Daemon.Bridge has the bridges between a LAN and the tailnet, with
--     isTailscaleIP of node/internal/networking/tailscale.go. Daemon.Hostname has setUniqueHostname.
--     Daemon.Startup has Start, initDiscovery and initNetworking.
--   * Firewall: setupFirewallRules of node/internal/daemon/daemon.go and refreshFirewallRules of
--     node/internal/services/kubernetes/k3s/server.go, as scripts of commands. iptables is the interface
--     Iptables, whose laws are those of its manual; ufw is taken as not enabled. Their loops run on fuel, and
--     more than the rules of a chain and sixty lines together is enough.
--   * Networking: node/internal/networking/tailscale.go, over the interfaces that package net lists.
--   * Discovery.Creating: New of serf.go, and what it reads of the machine.
--   * Discovery.Lan: node/internal/discovery/lan.go, whose candidates Serf joins. Discovery.Display has
--     ShortNodeID, ParseEncryptKey and GetHealthScore of serf.go.
--   * K3s: node/internal/services/kubernetes/k3s/server.go and agent.go. A role is a record of its
--     fields, and its methods, the exit of its process and, for the agent, the lines of its log are
--     events that may come in any order. K3s.Files has the files that the server reads and rewrites.
--     K3s.Storage has the collection of orphaned storage and ensureRancherDataPVC, over what kubectl prints,
--     and K3s.Rancher has deployRancher, over kubectl and helm as the interface Api, with its URLs in
--     K3s.Domain.
--   * Slurm: node/internal/services/slurm/controller/controller.go and
--     node/internal/services/slurm/worker/worker.go, with slurm.conf line by line. Daemon.Slurm is what the
--     phases see of their Start: its errors and the munge key on disk. Slurm.Munge has
--     node/internal/services/slurm/auth/munge.go and the handlers of user events.
--   * Identity: node/internal/identity/identity.go and persistence.go. Ed25519, base58 and JSON are the
--     interface Codecs; the files are a map from paths to texts.
--   * Config: node/internal/config/config.go, after viper has read the configuration.
--   * Roles: node/internal/roles/role.go and manager.go.
--
-- A call of the world (Serf, HTTP, a process, the disk, the clock) takes its answer as an argument, so
-- that a phase is a function from the daemon and the answers to the daemon and an error. An error is its
-- text. A loop with a timer runs over the list of the rounds that it makes, each with what it reads: a
-- list that is too short shows as a loop that still waits, and the theorems on runDiscovering and
-- runElecting say how many rounds are enough. Numbers are natural; strconv.Atoi gives an integer without
-- the bounds of a machine word.
--
-- Not modelled: subnet advertisement, the command line, what the K3s server deploys by manifests (Longhorn,
-- ingress, slurmdbd), sacctmgr, and the killing of stray processes, which are calls of the
-- system and little else. Writes of files succeed where the code ignores their errors.
--
-- Examples applies the theorems to small clusters.
pub mod Prelude
pub mod State
pub mod Auth
pub mod Discovery
pub mod Daemon
pub mod Firewall
pub mod Networking
pub mod Identity
pub mod K3s
pub mod Slurm
pub mod Config
pub mod Roles
pub mod Examples
