-- ===== src/Daemon/Provisioning.antt =====
-- runProvisioning, publishClusterReady and retryPublishTags of node/internal/daemon/daemon.go. An error
-- is its text.
pub mod Published
pub mod Publishing
use Prim.Native.String.{◌++◌}
use cluster_os.Prelude.{
  ℕ, String, Bool, true, false, ◌&&◌, Option, none, some, List, [], ◌∷◌, ◌==◌, ◌⊎◌, inl, inr,
  if◌then◌else◌, length, eqb,
}
use cluster_os.Prelude.Maps.{Map}
use cluster_os.Prelude.Split.{join_comma}
use cluster_os.Auth.{Bytes}
use cluster_os.State.{set_leader}
use cluster_os.Discovery.Member.{Member}
use cluster_os.Discovery.Tags.{update_tags}
use cluster_os.Daemon.ControlPlane.{select_cp_servers, write_cp_peers_file, prune_stale_etcd_peers}
use cluster_os.Daemon.Workers.{Disks, build_worker_list}
use cluster_os.Daemon.Slurm.{Starting, wrap, start_controller, start_worker}
use cluster_os.Daemon.Node.{
  Daemon, Host, ready, Role, k3s_server, slurm_controller, slurm_worker_no_config, register_role,
  unregister_role, publish_tag, drop_tags, get_leader_tag,
}

-- What the world answers while a leader provisions: this node's IP, which etcd peers answer, the errors
-- of the K3s server and its token, the random key, whether a key can be written, Serf's members, the
-- disks, and the starts of the SLURM roles.
pub record Answers : Type 0 where
  pub node_ip : String
  pub etcd_reachable : String → Bool
  pub start_error : Option String
  pub api_error : Option String
  pub token : String ⊎ String
  pub random_key : String ⊎ Bytes
  pub key_written : Bool
  pub members : List Member
  pub disks : Disks
  pub ctrl : Starting
  pub worker : Starting

abbrev pub munge_key_size : ℕ
munge_key_size = 32

-- A daemon after a step, with the step's error if it has one.
abbrev pub Outcome : Type 0
Outcome = Daemon × Option String

unfoldable pub cluster_tags : Host → String → String → String → Bytes → Map String
cluster_tags host url tok cp_servers key =
    ("k3s-server", url)
    ∷ ("k3s-token", tok)
    ∷ ("munge-key", host.std_encode key)
    ∷ ("cp-servers", cp_servers)
    ∷ ("phase", "ready")
    ∷ []

-- One call of UpdateTags with the cluster's tags: on an error they are left to a retry.
unfoldable pub try_publish : Host → Map String → Daemon → Daemon
unfolding update_tags
try_publish host tags d =
    let (after, fine) = update_tags host.set_tags tags d.tags in
    record d { tags = after; retrying = if fine then d.retrying else tags ∷ d.retrying }

-- publishClusterReady
unfoldable pub publish_cluster_ready : Host → String → String → String → Bytes → Daemon → Daemon
unfolding drop_tags cluster_tags try_publish
publish_cluster_ready host url tok cp_servers key d =
    let purged = drop_tags host ("munge-key-hash" ∷ []) d in
    record (try_publish host (cluster_tags host url tok cp_servers key) purged) { phase = ready }

-- One attempt of a retryPublishTags that is running: it ends when Serf takes the tags.
unfoldable pub retry_publish_tags : Host → Daemon → Daemon
unfolding try_publish
retry_publish_tags host d = elim d.retrying [
  | [] ↦ d
  | tags ∷ later ↦ try_publish host tags (record d { retrying = later })
]

-- The key on disk, where it has the right size.
unfoldable pub sized : Option Bytes → Option Bytes
sized none = none
sized (some key) = if eqb (length key) munge_key_size then some key else none

-- The leader's munge-key tag, decoded, where it has the right size.
unfoldable pub tag_key : Host → Option String → Option Bytes
unfolding sized
tag_key host none = none
tag_key host (some text) = if text == "" then none else sized (host.std_decode text)

-- The munge key, and the file afterwards: the key on disk, or else the one in the tag, which is then
-- written, or else a random one.
unfoldable pub choose_munge_key : Host → Answers → Daemon → (String ⊎ Bytes) × Option Bytes
unfolding sized tag_key get_leader_tag
choose_munge_key host w d = elim (sized d.munge_file) [
  | some key ↦ (inr key, d.munge_file)
  | none ↦ elim (tag_key host (get_leader_tag "munge-key" d.leader_name w.members)) [
    | some key ↦ (inr key, if w.key_written then some key else d.munge_file)
    | none ↦ (w.random_key, d.munge_file)
  ]
]

-- From the started SLURM controller on.
unfoldable pub finish : Host → Answers → String → Bytes → Daemon → Daemon
unfolding register_role publish_cluster_ready select_cp_servers write_cp_peers_file start_worker
finish host w tok key d =
    let cp_ips = select_cp_servers w.node_ip host.version host.node_name w.members in
    let url = "https://" ++ (w.node_ip ++ ":6443") in
    let chosen = record d {
      slurm_ctrl = true;
      cp_servers = cp_ips;
      is_cp_server = true;
      etcd = write_cp_peers_file w.node_ip cp_ips d.etcd;
    } in
    let published = publish_cluster_ready host url tok (join_comma cp_ips) key chosen in
    register_role "slurm-worker" (slurm_worker_no_config w.node_ip key w.node_ip)
      (record published { munge_file = (start_worker true w.worker key published.munge_file).0 })

-- From the chosen munge key on.
unfoldable pub start_slurm : Host → Answers → String → Bytes → Daemon → Outcome
unfolding build_worker_list start_controller
start_slurm host w tok key d =
    let early = publish_tag host "munge-key" (host.std_encode key) d in
    let role = slurm_controller w.node_ip key (build_worker_list w.disks w.node_ip w.members) in
    let (munge_file, error) = start_controller w.ctrl key early.munge_file in
    let started = record early { munge_file = munge_file } in
    let registered = register_role "slurm-controller" role started in
    let led = record registered {
      cluster_state = set_leader "slurm-controller" host.node_id registered.cluster_state;
    } in
    elim (wrap "start slurm controller" error) [
      | some e ↦ (started, some e)
      | none ↦ (finish host w tok key led, none)
    ]

-- From the choice of the munge key on, which may have failed.
unfoldable pub with_key : Host → Answers → String → String ⊎ Bytes → Daemon → Outcome
with_key host w tok (inl e) d = (d, some ("generate munge key: " ++ e))
with_key host w tok (inr key) d = start_slurm host w tok key d

-- From the token on, which may not be readable.
unfoldable pub with_token : Host → Answers → String ⊎ String → Daemon → Outcome
unfolding choose_munge_key
with_token host w (inl e) d = (d, some ("read k3s token: " ++ e))
with_token host w (inr tok) d =
    let led = record d { cluster_state = set_leader "k3s-server" host.node_id d.cluster_state } in
    let (chosen, munge_file) = choose_munge_key host w led in
    with_key host w tok chosen (record led { munge_file = munge_file })

-- From the wait for the API on.
unfoldable pub with_api : Host → Answers → Option String → Daemon → Outcome
with_api host w (some e) d = (d, some ("k3s API ready: " ++ e))
with_api host w none d = with_token host w w.token d

-- From the start of the K3s server on.
unfoldable pub with_server : Host → Answers → Option String → Daemon → Outcome
with_server host w (some e) d = (d, some ("start k3s server: " ++ e))
with_server host w none d =
    with_api host w w.api_error (register_role "k3s-server" (k3s_server w.node_ip) d)

unfoldable pub run_provisioning : Host → Answers → Daemon → Outcome
unfolding prune_stale_etcd_peers
run_provisioning host w d =
    let cleared = unregister_role "slurm-worker" (unregister_role "k3s-agent" d) in
    let etcd = prune_stale_etcd_peers w.etcd_reachable w.node_ip cleared.etcd in
    with_server host w w.start_error (record cleared { etcd = etcd })
