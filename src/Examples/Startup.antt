-- ===== src/Examples/Startup.antt =====
-- A node that starts with Tailscale up, is let in by another, and receives the munge key.
use cluster_os.Prelude.{
  String, ◌≡◌, refl, true, false, none, some, List, [], ◌∷◌, ◌++◌, ◌⊎◌, inl, inr, head?, ◌==◌,
}
use cluster_os.Prelude.Int.{pos}
use cluster_os.Auth.{Bytes, ClusterAuth, ok, new, create_compact_join_token}
use cluster_os.State.{Node, NodeStatus, get_node, get_local_node, new_cluster_state}
use cluster_os.State.Invariant.{IsWf}
use cluster_os.Networking.{Ip4, Interface, or_none_found, detect_tailscale_ip}
use cluster_os.Networking.Detected.{ranged_of, is_named, is_open, detect_tailscale_ip_first}
use cluster_os.Discovery.Member.{Member, alive}
use cluster_os.Discovery.Events.{join, Discovery, Setup, handle_member_event}
use cluster_os.Discovery.Creating.{
  SerfConfig, Created, handle_user_event, serf_config, new_discovery,
}
use cluster_os.Discovery.Creating.Admitted.{created_admitted}
use cluster_os.Slurm.Munge.{Starting, World as MungeWorld}
use cluster_os.Slurm.Munge.Delivered.{handlers, munge_key_delivered}
use cluster_os.Daemon.Hostname.{Host}
use cluster_os.Daemon.Startup.{
  Settled, Packages, World, Started, initial_name, discovery_settings, start, after_discovery,
}
use cluster_os.Daemon.Startup.Local.{shown_name, shown_ip, first_state}
use cluster_os.Daemon.Startup.Finished.{start-IsLocal}
use cluster_os.Examples.Auth.{codec}

abbrev ip : Ip4
ip = record { first = 100; second = 64; third = 0; fourth = 7 }

abbrev ifaces : List Interface
ifaces =
    record { name = "eth0"; is_up = true; is_loopback = false; addrs = some (none ∷ []) }
    ∷ record { name = "tailscale0"; is_up = true; is_loopback = false; addrs = some (some ip ∷ []) }
    ∷ []

detect_tailscale_ip_first_example :
    detect_tailscale_ip (inr ifaces)
    ≡ or_none_found (head? (ranged_of is_named ifaces ++ ranged_of is_open ifaces))
detect_tailscale_ip_first_example = detect_tailscale_ip_first ifaces

abbrev key_text : String
key_text = "00000000000000000000000000000000"

abbrev settled : Settled
settled = record {
  node_id = "n1";
  short_id = "n1";
  node_name = "cluster-node";
  roles = [];
  capabilities = record { cpu = pos 4; ram = "8GB"; gpu = false; arch = "amd64" };
  encrypt_key = "";
  bind_port = pos 7946;
  bootstrap_peers = [];
  auth_key = key_text;
  api_discovery = true;
  version = "v1";
  build_time = "";
}

abbrev packages : Packages
packages = record {
  itoa = λ n. "4";
  count_text = λ n. "1";
  ip_text = λ a. "100.64.0.7";
  ip_bytes = λ a. a.first ∷ a.second ∷ a.third ∷ a.fourth ∷ [];
  decode_key = λ s. inl "no key";
  codec = codec;
  create = λ s. none;
  set_tags = λ old tags. (tags, true);
}

abbrev world : World
world = record {
  hostname = some "debian";
  disks = none;
  machine = record { cpu = pos 4; arch = "amd64"; mem_mb = pos 8192; gpus = 0 };
  advertise = "100.64.0.7";
  listed = inr ifaces;
  listed_again = inr ifaces;
  clock = 5;
  skip = "";
  outcomes = record { writes = true; hostnamectl = true; hostname_command = true; opens = true };
}

abbrev host : Host
host = record { hostname = "debian"; etc_hostname = "debian\n"; etc_hosts = none; node_name = "" }

abbrev zeros : Bytes
zeros =
    0 ∷ 0 ∷ 0 ∷ 0 ∷ 0 ∷ 0 ∷ 0 ∷ 0 ∷ 0 ∷ 0 ∷ 0 ∷ 0 ∷ 0 ∷ 0 ∷ 0 ∷ 0 ∷ 0 ∷ 0 ∷ 0 ∷ 0 ∷ 0 ∷ 0 ∷ 0 ∷ 0
    ∷ 0 ∷ 0 ∷ 0 ∷ 0 ∷ 0 ∷ 0 ∷ 0 ∷ 0 ∷ []

abbrev ca : ClusterAuth
ca = record { auth_key = zeros }

serf : SerfConfig
unfolding discovery_settings
serf =
    serf_config packages.itoa codec ca world.machine
      (discovery_settings packages settled "debian" "100.64.0.7" [] none)

layer : Created
layer = record { serf = serf; cluster_auth = ca; joined = [] }

same_key : new codec key_text ≡ ok ca
unfolding new
same_key = refl

made :
    new_discovery packages.itoa codec packages.create world.machine
      (discovery_settings packages settled "debian" "100.64.0.7" [] none)
    ≡ inr layer
unfolding new_discovery layer serf new
made = refl

started : Started
started =
    after_discovery packages settled world host "debian" (first_state settled world "debian") layer

has_started : start packages settled world host ≡ inr started
unfolding start started layer serf new_discovery cluster_os.Discovery.Display.parse_encrypt_key new
    cluster_os.Daemon.Startup.read_extra_disk_paths
has_started = refl

start-IsLocal_example :
    IsWf started.cluster
    × ((n : Node) × (get_local_node started.cluster ≡ some n)
        × (n.id ≡ settled.node_id)
        × (n.status ≡ NodeStatus.alive)
        × (n.name ≡ shown_name packages (initial_name settled (some "debian")) started.tailscale)
        × (n.tailscale_ip ≡ shown_ip packages started.tailscale))
    × (started.elector_name ≡ initial_name settled (some "debian"))
    × (started.discovery.serf.node_name ≡ started.elector_name)
start-IsLocal_example = start-IsLocal packages settled world host started refl has_started

abbrev peer : Setup
peer = record { codec = codec; cluster_auth = ca; local_id = "n0"; parse_ip = λ s. none }

member : Member
member = record {
  name = "debian";
  addr = "100.64.0.7";
  port = 7946;
  status = alive;
  tags = layer.serf.tags;
}

abbrev nobody : Discovery
nobody = record { state = new_cluster_state; notified = 0 }

is_shown : member.tags ≡ layer.serf.tags
unfolding member
is_shown = refl

has_token : (create_compact_join_token codec ca "n1" == "") ≡ false
unfolding create_compact_join_token
has_token = refl

created_admitted_example :
    (n : Node) × (get_node "n1" (handle_member_event join peer ((member, 5, 5) ∷ []) nobody).state
      ≡ some n)
    × (n.status ≡ NodeStatus.alive)
    × (n.name ≡ member.name)
    × (n.tags ≡ layer.serf.tags)
unfolding discovery_settings
created_admitted_example =
    created_admitted packages.itoa peer packages.create world.machine
      (discovery_settings packages settled "debian" "100.64.0.7" [] none) layer member 5 5 nobody
      made same_key is_shown refl refl has_token

abbrev munge_world : MungeWorld
munge_world = record {
  agent_ca = none;
  server_ca = some "old";
  munge = record { key_file = some (9 ∷ []); loaded = some (9 ∷ []); socket = true };
}

abbrev starting : Starting
starting = record {
  ends = true;
  takes_over = false;
  start_error = none;
  looks = false ∷ true ∷ [];
  died = none;
}

abbrev decode : String → String ⊎ Bytes
decode s = inr (1 ∷ 2 ∷ [])

munge_key_delivered_example :
    let after =
      handle_user_event
        (handlers true true decode none none starting)
        "munge-key"
        "AQI="
        munge_world in
    (after.munge.key_file ≡ some (1 ∷ 2 ∷ []))
    × (after.munge.loaded ≡ some (1 ∷ 2 ∷ []))
    × (after.agent_ca ≡ none)
    × (after.server_ca ≡ some "old")
munge_key_delivered_example =
    munge_key_delivered true true decode (λ k. "AQI=") starting (1 ∷ 2 ∷ []) munge_world refl refl
      refl refl
