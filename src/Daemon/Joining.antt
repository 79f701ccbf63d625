-- ===== src/Daemon/Joining.antt =====
-- runJoining, runJoiningCP, waitForK3sAPIHTTP and updateTailscaleIP of node/internal/daemon/daemon.go.
-- An error is its text, without the cause of a wait that has ended; those of readLeaderClusterTags are one.
pub mod Joins
pub mod Phases
pub mod Secondary
use Prim.Native.String.{◌++◌}
use cluster_os.Prelude.{
  ℕ, String, Bool, true, false, ◌&&◌, ◌||◌, not, Option, none, some, List, [], ◌∷◌, ◌==◌, ltb,
  if◌then◌else◌,
}
use cluster_os.Auth.{Bytes}
use cluster_os.Discovery.Member.{Member}
use cluster_os.Daemon.Election.{
  Healthz, compute_leader, compute_reachable_leader, find_running_leader, extract_host,
}
use cluster_os.Daemon.ControlPlane.{is_in_cp_list}
use cluster_os.Daemon.Slurm.{Starting, wrap, start_worker}
use cluster_os.Daemon.Node.{
  Daemon, Host, Phase, electing, joining_cp, ready, k3s_server_joining, k3s_agent, slurm_worker,
  register_role, unregister_role, publish_tag, set_phase, stop_slurm_controller, get_leader_tag,
}
use cluster_os.Daemon.Node.LeaderTags.{
  Poll, wait_for_leader_tag, LeaderClusterTags, TagPolls, read_leader_cluster_tags,
}
use cluster_os.Daemon.Provisioning.{Outcome}

-- What the world answers while a node joins: Serf's members when it starts and after the wait for the
-- leader, the health of k3s servers, the rounds of the waits, this node's IP, the Tailscale IP or "", and
-- how the roles start. `k3s_ready` is what a k3s server says when its API is waited for.
pub record Answers : Type 0 where
  pub members : List Member
  pub healthz : Healthz
  pub for_ready : List Poll
  pub synced : List Member
  pub tag_polls : TagPolls
  pub local_ip : String
  pub ts_ip : String
  pub api_polls : List (Option ℕ)
  pub k3s_error : Option String
  pub k3s_ready_error : Option String
  pub worker : Starting

-- updateTailscaleIP: the node's IP, and the tag, where Tailscale has one
unfoldable pub update_tailscale_ip : Host → Answers → Daemon → Daemon
unfolding publish_tag
update_tailscale_ip host w d = if w.ts_ip == "" then d else publish_tag host "tsip" w.ts_ip d

node_ip : Answers → String
node_ip w = if w.ts_ip == "" then w.local_ip else w.ts_ip

-- waitForK3sAPIHTTP, over the answers before its deadline: whether it returns no error.
unfoldable pub wait_for_k3s_api : List (Option ℕ) → Bool
wait_for_k3s_api [] = false
wait_for_k3s_api (none ∷ polls) = wait_for_k3s_api polls
wait_for_k3s_api (some code ∷ polls) = ltb code 500 || wait_for_k3s_api polls

-- The leader that a node without one finds before it joins.
unfoldable pub fresh_leader : Host → Answers → String
unfolding compute_reachable_leader
fresh_leader host w =
    let leader = (compute_reachable_leader w.healthz host.version host.node_name w.members).0 in
    if leader == "" then compute_leader w.members else leader

-- The k3s agent: where it fails to start, it is left out.
unfoldable pub start_agent : Answers → LeaderClusterTags → Daemon → Daemon
unfolding register_role node_ip
start_agent w tags d = elim w.k3s_error [
  | some e ↦ d
  | none ↦ register_role "k3s-agent" (k3s_agent tags.server_url tags.token (node_ip w)) d
]

-- The last step of runJoining: slurmd, and the phase.
unfoldable pub start_slurm_worker : Host → Answers → LeaderClusterTags → Daemon → Outcome
unfolding register_role set_phase node_ip start_worker wrap extract_host
start_slurm_worker host w tags d =
    let (munge_file, error) = start_worker false w.worker tags.munge_key d.munge_file in
    let started = record d { munge_file = munge_file } in
    let role = slurm_worker (extract_host tags.server_url) tags.munge_key (node_ip w) in
    elim (wrap "start slurm worker" error) [
      | some e ↦ (started, some e)
      | none ↦ (set_phase host ready (register_role "slurm-worker" role started), none)
    ]

-- From the leader's tags on.
unfoldable pub join_worker : Host → Answers → Option LeaderClusterTags → Daemon → Outcome
join_worker host w none d = (d, some "read leader tags")
join_worker host w (some tags) d = start_slurm_worker host w tags (
    start_agent w tags (update_tailscale_ip host w (record d { k3s_server_url = tags.server_url })))

-- A tag that is there and is not empty.
unfoldable pub has_text : Option String → Bool
has_text none = false
has_text (some s) = not (s == "")

-- From the wait for the leader on: a node in the leader's list joins the control plane instead, and a
-- leader without a k3s server is replaced by one that has it.
unfoldable pub join_leader : Host → Answers → Daemon → Outcome
unfolding has_text read_leader_cluster_tags
join_leader host w d =
    let actual = find_running_leader w.healthz w.synced in
    if is_in_cp_list (get_leader_tag "cp-servers" d.leader_name w.synced) w.local_ip
    then (set_phase host joining_cp d, none)
    else if has_text (get_leader_tag "k3s-server" d.leader_name w.synced)
    then join_worker host w (read_leader_cluster_tags host d.leader_name w.tag_polls d.munge_file) d
    else if actual == ""
    then (d, some "no node with k3s-server tag found")
    else join_worker host w (read_leader_cluster_tags host actual w.tag_polls d.munge_file)
        (record d { leader_name = actual })

-- The wait for the leader to be ready.
unfoldable pub await_leader : Host → Answers → Daemon → Outcome
await_leader host w d = elim (wait_for_leader_tag "phase" "ready" d.leader_name w.for_ready) [
  | none ↦ (d, some "wait for leader ready")
  | some _ ↦ join_leader host w d
]

unfoldable pub run_joining : Host → Answers → Daemon → Outcome
unfolding fresh_leader
run_joining host w d =
    let cleared = stop_slurm_controller (unregister_role "k3s-server" d) in
    let leader = fresh_leader host w in
    if not (cleared.leader_name == "")
    then await_leader host w cleared
    else if leader == ""
    then (set_phase host electing cleared, none)
    else await_leader host w (record cleared { leader_name = leader })

-- The last step of runJoiningCP: an error of slurmd is only logged.
unfoldable pub finish_cp : Host → Answers → LeaderClusterTags → Daemon → Daemon
unfolding register_role set_phase node_ip start_worker extract_host
finish_cp host w tags d =
    let role = slurm_worker (extract_host tags.server_url) tags.munge_key (node_ip w) in
    let started = record d {
      munge_file = (start_worker false w.worker tags.munge_key d.munge_file).0;
    } in
    set_phase host ready (register_role "slurm-worker" role started)

-- From the leader's tags on.
unfoldable pub join_cp : Host → Answers → Option LeaderClusterTags → Daemon → Outcome
unfolding wait_for_k3s_api node_ip
join_cp host w none d = (d, some "read leader tags")
join_cp host w (some tags) d =
    let named = update_tailscale_ip host w d in
    let server = k3s_server_joining (node_ip w) tags.server_url tags.token in
    let serving = record (register_role "k3s-server" server named) { is_cp_server = true } in
    if not (wait_for_k3s_api w.api_polls)
    then (named, some "leader k3s API not ready")
    else (elim w.k3s_error [
      | some e ↦ (named, some ("start secondary k3s server: " ++ e))
      | none ↦ elim w.k3s_ready_error [
        | some e ↦ (serving, some ("secondary k3s API ready: " ++ e))
        | none ↦ (finish_cp host w tags serving, none)
      ]
    ])

unfoldable pub run_joining_cp : Host → Answers → Daemon → Outcome
unfolding read_leader_cluster_tags
run_joining_cp host w d =
    let cleared = stop_slurm_controller (unregister_role "k3s-agent" d) in
    elim (wait_for_leader_tag "phase" "ready" cleared.leader_name w.for_ready) [
      | none ↦ (cleared, some "wait for leader ready")
      | some _ ↦
          join_cp host w
            (read_leader_cluster_tags host cleared.leader_name w.tag_polls cleared.munge_file)
            cleared
    ]
