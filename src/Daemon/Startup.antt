-- ===== src/Daemon/Startup.antt =====
-- New, Start, initDiscovery and initNetworking of node/internal/daemon/daemon.go, up to the phase machine. What
-- package net, Serf and the commands answer are arguments.
pub mod Local
pub mod Finished
use cluster_os.Prelude.{
  ℕ, ◌+◌, String, Bool, true, false, ◌&&◌, ◌||◌, not, Option, none, some, List, [], ◌∷◌, ◌==◌, ◌⊎◌,
  inl, inr, if◌then◌else◌, length, ltb,
}
use cluster_os.Prelude.Int.{ℤ, pos}
use cluster_os.Prelude.Maps.{Map, lookup, insert}
use cluster_os.Prelude.Errors.{after_text, caused}
use cluster_os.Prelude.Split.{trim_space}
use cluster_os.Prelude.Fields.{split_at}
use cluster_os.Auth.{Bytes, Codec}
use cluster_os.State.{
  Ip, Node, ClusterState, Capabilities, NodeStatus, new_cluster_state, set_local_node_id, add_node,
  get_node, update_node_tailscale_ip,
}
use cluster_os.Networking.{Ip4, Interface, is_tailscale_available, new_tailscale_manager}
use cluster_os.Discovery.Tags.{SetTags, update_tags}
use cluster_os.Discovery.Display.{parse_encrypt_key}
use cluster_os.Discovery.Creating.{
  Machine, Settings, SerfConfig, Created, CreateError, bad_auth, no_serf, new_discovery,
}
use cluster_os.Daemon.Hostname.{TsIp, ipv4, Host, Outcomes, set_unique_hostname}

-- readExtraDiskPaths: the paths in /etc/clusteros/extra-disks, if it can be read; 10 is a line break.
unfoldable pub disk_lines : List String → List String
disk_lines [] = []
disk_lines (raw ∷ rest) =
    let later = disk_lines rest in
    let line = trim_space raw in if line == "" then later else line ∷ later

unfoldable pub read_extra_disk_paths : Option String → List String
unfolding disk_lines
read_extra_disk_paths none = []
read_extra_disk_paths (some content) = disk_lines (split_at 10 (trim_space content))

-- The loop of detectTailscaleIPWithRetry: the clock before each turn, and what detectTailscaleIP finds in it.
unfoldable pub detect_with_retry : ℕ → List (ℕ × String) → String
detect_with_retry deadline [] = ""
detect_with_retry deadline ((now, ip) ∷ turns) =
    let later = detect_with_retry deadline turns in
    if ltb now deadline then (if ip == "" then later else ip) else ""

-- What Start reads of the configuration and the identity.
pub record Settled : Type 0 where
  pub node_id : String
  pub short_id : String
  pub node_name : String
  pub roles : List String
  pub capabilities : Capabilities
  pub encrypt_key : String
  pub bind_port : ℤ
  pub bootstrap_peers : List String
  pub auth_key : String
  pub api_discovery : Bool
  pub version : String
  pub build_time : String

-- The packages that Start uses: numbers and addresses as text, base64, the codec of the key, and Serf.
pub record Packages : Type 0 where
  pub itoa : ℤ → String
  pub count_text : ℕ → String
  pub ip_text : TsIp → String
  pub ip_bytes : Ip4 → Ip
  pub decode_key : String → String ⊎ Bytes
  pub codec : Codec
  pub create : SerfConfig → Option String
  pub set_tags : SetTags

-- What the world answers: the host name if there is one, the file of extra disks, the machine, the address to
-- advertise, the interfaces at the three times that they are listed, the clock, CLUSTEROS_SKIP_FIREWALL in
-- lower case, and what setUniqueHostname can do.
pub record World : Type 0 where
  pub hostname : Option String
  pub disks : Option String
  pub machine : Machine
  pub advertise : String
  pub listed : String ⊎ List Interface
  pub listed_again : String ⊎ List Interface
  pub clock : ℕ
  pub skip : String
  pub outcomes : Outcomes

-- A daemon that has started, as far as it is set up here. `config_name` is Discovery.NodeName of its
-- configuration, and `tags` are those of its Serf.
pub record Started : Type 0 where
  pub cluster : ClusterState
  pub discovery : Created
  pub elector_name : String
  pub tags : Map String
  pub tailscale : Option Ip4
  pub host : Host
  pub sets_firewall : Bool
  pub finds_peers : Bool

-- The name of the node: the configured one, unless it is one of the defaults.
unfoldable pub initial_name : Settled → Option String → String
initial_name s hostname =
    if s.node_name == "" || (s.node_name == "cluster-node" || s.node_name == "localhost")
    then elim hostname [ some name ↦ name | none ↦ after_text "node-" s.short_id ]
    else s.node_name

unfoldable pub local_node : Settled → String → Node
local_node s name = record {
  id = s.node_id;
  name = name;
  roles = s.roles;
  capabilities = s.capabilities;
  status = NodeStatus.alive;
  address = "";
  tailscale_ip = none;
  tailscale_name = "";
  tags = [];
  last_seen = 0;
  joined_at = 0;
}

-- The tag of the extra disks, if there are any.
unfoldable pub disk_tags : (ℕ → String) → List String → Map String
disk_tags count_text [] = []
disk_tags count_text (d ∷ ds) = insert "ndisks" (count_text (length (d ∷ ds))) []

-- The settings that initDiscovery gives to New, for the key that it has parsed.
unfoldable pub discovery_settings :
    Packages → Settled → String → String → List String → Option Bytes → Settings
unfolding disk_tags
discovery_settings p s name advertise disks key = record {
  node_name = name;
  node_id = s.node_id;
  bind_addr = "0.0.0.0";
  bind_port = s.bind_port;
  advertise_addr = advertise;
  bootstrap_peers = s.bootstrap_peers;
  encrypt_key = elim key [ none ↦ [] | some k ↦ k ];
  cluster_auth_key = s.auth_key;
  tags = disk_tags p.count_text disks;
  version = s.version;
  build_time = s.build_time;
}

-- initDiscovery: what stops it
pub data DiscoveryError : Type 0 where
  bad_key : String → DiscoveryError
  not_created : CreateError → DiscoveryError

unfoldable pub created_or : CreateError ⊎ Created → DiscoveryError ⊎ Created
created_or (inl e) = inl (not_created e)
created_or (inr c) = inr c

unfoldable pub with_key :
    Packages → Settled → World → String → String ⊎ Option Bytes → DiscoveryError ⊎ Created
unfolding discovery_settings created_or
with_key p s w name (inl e) = inl (bad_key e)
with_key p s w name (inr key) = created_or (
    new_discovery p.itoa p.codec p.create w.machine
      (discovery_settings p s name w.advertise (read_extra_disk_paths w.disks) key))

unfoldable pub init_discovery : Packages → Settled → World → String → DiscoveryError ⊎ Created
unfolding with_key
init_discovery p s w name =
    with_key p s w name (parse_encrypt_key p.count_text p.decode_key s.encrypt_key)

-- The local node under another name: its pointer in the map is renamed, and it is added again.
unfoldable pub rename_local : String → String → ℕ → ClusterState → ClusterState
rename_local id name now cs = elim (get_node id cs) [
  | none ↦ cs
  | some node ↦ add_node (record node { name = name }) now now cs
]

-- initNetworking, for the address of the manager
unfoldable pub networked : Packages → Settled → World → Ip4 → Started → Started
unfolding rename_local
networked p s w ip d =
    let address = ipv4 ip.first ip.second ip.third ip.fourth in
    let text = p.ip_text address in
    let known = update_node_tailscale_ip s.node_id (some (p.ip_bytes ip)) w.clock d.cluster in
    let host = record d.host { node_name = text } in
    record d {
      tailscale = some ip;
      cluster = rename_local s.node_id text w.clock known;
      tags = (update_tags p.set_tags (("tsip", text) ∷ []) d.tags).0;
      host = (set_unique_hostname p.count_text p.ip_text w.outcomes address host).0;
    }

unfoldable pub with_manager : Packages → Settled → World → String ⊎ Ip4 → Started → Started
unfolding networked
with_manager p s w (inl e) d = d
with_manager p s w (inr ip) d = networked p s w ip d

-- initNetworking lists the interfaces twice: to see whether there is Tailscale, and for the manager.
unfoldable pub init_networking : Packages → Settled → World → Started → Started
unfolding with_manager
init_networking p s w d =
    if is_tailscale_available w.listed
    then with_manager p s w (new_tailscale_manager w.listed_again) d
    else d

-- Start after initDiscovery.
unfoldable pub after_discovery :
    Packages → Settled → World → Host → String → ClusterState → Created → Started
unfolding init_networking
after_discovery p s w host name cs created =
    let d = init_networking p s w (record {
      cluster = cs;
      discovery = created;
      elector_name = name;
      tags = created.serf.tags;
      tailscale = none;
      host = record host { node_name = name };
      sets_firewall = false;
      finds_peers = false;
    }) in
    record d {
      sets_firewall = not (w.skip == "1" || w.skip == "true");
      finds_peers = elim d.tailscale [ none ↦ false | some ip ↦ s.api_discovery ];
    }

unfoldable pub started_or :
    Packages
    → Settled
    → World
    → Host
    → String
    → ClusterState
    → DiscoveryError ⊎ Created
    → DiscoveryError ⊎ Started
unfolding after_discovery
started_or p s w host name cs (inl e) = inl e
started_or p s w host name cs (inr created) = inr (after_discovery p s w host name cs created)

-- Start: the error of initDiscovery, or the daemon. The host is known before.
unfoldable pub start : Packages → Settled → World → Host → DiscoveryError ⊎ Started
unfolding initial_name local_node init_discovery started_or
start p s w host =
    let name = initial_name s w.hostname in
    let cs =
      add_node (local_node s name) w.clock w.clock
        (set_local_node_id s.node_id new_cluster_state) in
    started_or p s w host name cs (init_discovery p s w name)
