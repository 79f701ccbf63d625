-- ===== src/K3s/Server.antt =====
-- The K3s server role: node/internal/services/kubernetes/k3s/server.go, in what it does to its process and
-- to the etcd data on disk. Killing what ran before only frees ports, and is the world's.
pub mod Recovery
pub mod Lifecycle
pub mod Keeping
pub mod Healing
use cluster_os.Prelude.{
  ℕ, zero, suc, ◌+◌, String, Bool, true, false, ◌&&◌, ◌||◌, not, Option, none, some, List, [], ◌∷◌,
  ◌++◌, ◌==◌, ◌⊎◌, inl, inr, ltb, leb, eqb, if◌then◌else◌,
}
use cluster_os.Prelude.Errors.{caused, after_text}
use cluster_os.Prelude.Split.{trim_space}

-- The fields that the methods change, and those that say how it starts. `cmd` numbers the process: two
-- processes have two numbers.
pub record K3sServer : Type 0 where
  pub node_ip : String
  pub server_url : String
  pub join_token : String
  pub cmd : Option ℕ
  pub running : Bool
  pub start_count : ℕ
  pub quorum_recovery_done : Bool

-- NewK3sServerRole and NewK3sServerRoleJoining
unfoldable pub new_joining : String → String → String → K3sServer
new_joining node_ip server_url join_token = record {
  node_ip = node_ip;
  server_url = server_url;
  join_token = join_token;
  cmd = none;
  running = false;
  start_count = 0;
  quorum_recovery_done = false;
}

unfoldable pub new_leader : String → K3sServer
unfolding new_joining
new_leader node_ip = new_joining node_ip "" ""

-- The etcd directory: the file that records the IP, and the data of the cluster if there is any.
pub record Etcd : Type 0 where
  pub marker : Option String
  pub contents : Option String

-- The directories below the data directory; `etcd` is `none` where its directory is not there.
pub record Disk : Type 0 where
  pub tls : Bool
  pub cred : Bool
  pub etcd : Option Etcd

-- What the world answers to a start: the errors of creating the data directory and of the process, and
-- the LAN IP or "". Removals and the write of the marker succeed; the code goes on if they do not.
pub record Starting : Type 0 where
  pub data_dir_error : Option String
  pub lan_ip : String
  pub process : String ⊎ ℕ

-- What is there after the marker has been written, over what was there before.
marked : String → Option Etcd → Option Etcd
marked node_ip none = some (record { marker = some node_ip; contents = none })
marked node_ip (some etcd) = some (record etcd { marker = some node_ip })

-- The directory after the comparison with a marker that was read.
against : String → Etcd → Option String → Option Etcd
unfolding marked
against node_ip etcd none = marked node_ip (some etcd)
against node_ip etcd (some stored) =
    if trim_space stored == node_ip then some etcd else marked node_ip none

-- resetEtcdIfStale
unfoldable pub reset_etcd_if_stale : String → Option Etcd → Option Etcd
unfolding against
reset_etcd_if_stale node_ip none = if node_ip == "" then none else marked node_ip none
reset_etcd_if_stale node_ip (some etcd) =
    if node_ip == "" then some etcd else against node_ip etcd etcd.marker

-- The flags of the process.
unfoldable pub server_args : K3sServer → String → List String
server_args ks lan_ip =
    let advertise_addr = if ks.node_ip == "" then "127.0.0.1" else ks.node_ip in
    let common =
      "server" ∷ "--data-dir" ∷ "/var/lib/rancher/k3s" ∷ "--disable" ∷ "servicelb" ∷ "--disable"
      ∷ "traefik" ∷ "--snapshotter" ∷ "native" ∷ "--pause-image" ∷ "registry.k8s.io/pause:3.6"
      ∷ "--write-kubeconfig-mode" ∷ "0600" ∷ "--advertise-address" ∷ advertise_addr
      ∷ "--bind-address" ∷ "0.0.0.0" ∷ "--tls-san" ∷ advertise_addr ∷ "--tls-san" ∷ "127.0.0.1"
      ∷ [] in
    let mode =
      if ks.server_url == ""
      then "--cluster-init" ∷ []
      else "--server" ∷ ks.server_url ∷ "--token" ∷ ks.join_token ∷ [] in
    let lan = if lan_ip == "" then [] else "--tls-san" ∷ lan_ip ∷ [] in
    let address = if ks.node_ip == "" then [] else "--node-ip" ∷ ks.node_ip ∷ lan in
    common ++ (mode ++ (address ++ ("--etcd-arg=--max-request-bytes=20971520" ∷ [])))

-- A server that joins wipes its etcd, certificates and credentials; a leader only a stale etcd.
unfoldable pub prepare : K3sServer → Disk → Disk
unfolding reset_etcd_if_stale
prepare ks disk =
    if ks.server_url == ""
    then record disk { etcd = reset_etcd_if_stale ks.node_ip disk.etcd }
    else record { tls = false; cred = false; etcd = none }

-- A server and its disk after a method, with the error if there is one.
abbrev pub Outcome : Type 0
Outcome = K3sServer × Disk × Option String

unfoldable pub launched : String ⊎ ℕ → K3sServer → Disk → Outcome
launched (inl e) ks disk = (ks, disk, some (caused "k3s start" e))
launched (inr pid) ks disk = (record ks { cmd = some pid; running = true }, disk, none)

unfoldable pub started : Option String → Starting → K3sServer → Disk → Outcome
started (some e) a ks disk = (ks, disk, some (caused "create data dir" e))
started none a ks disk =
    launched a.process (record ks { start_count = suc ks.start_count }) (prepare ks disk)

-- Start
unfoldable pub start : Starting → K3sServer → Disk → Outcome
unfolding started
start a ks disk = started a.data_dir_error a ks disk

-- HealthCheck, where `alive` says whether the process takes a signal
unfoldable pub health_check : Bool → Starting → K3sServer → Disk → Outcome
health_check alive a ks disk = elim ks.cmd [
  | none ↦ start a ks disk
  | some pid ↦
      if alive then (ks, disk, none) else start a (record ks { cmd = none; running = false }) disk
]

-- Stop
unfoldable pub stop : K3sServer → K3sServer
stop ks = elim ks.cmd [ none ↦ ks | some pid ↦ record ks { cmd = none; running = false } ]

-- The goroutine that waits for a process, once that has exited.
unfoldable pub reap : ℕ → K3sServer → K3sServer
reap pid ks = elim ks.cmd [
  | none ↦ ks
  | some current ↦ if eqb current pid then record ks { cmd = none; running = false } else ks
]

-- wipeEtcdAndKillK3s
unfoldable pub wipe_etcd_and_kill_k3s : K3sServer → Disk → K3sServer × Disk
wipe_etcd_and_kill_k3s ks disk =
    (record ks { cmd = none; running = false }, record disk { etcd = none })

-- One round of WaitForAPIReady: the nanoseconds since it began, whether kubectl answers, and the status of
-- /healthz, which is 0 where nothing answers.
pub record ApiPoll : Type 0 where
  pub elapsed : ℕ
  pub answers : Bool
  pub status : ℕ

-- The end of a wait that has found the quorum lost.
unfoldable pub recover : K3sServer → Disk → Outcome
unfolding wipe_etcd_and_kill_k3s
recover ks disk =
    let (wiped, cleared) =
      wipe_etcd_and_kill_k3s (record ks { quorum_recovery_done = true }) disk in
    (
      wiped,
      cleared,
      some "etcd quorum failure: wiped stale data, HealthCheck will restart as single-node",
    )

-- Whether a round may count towards a lost quorum.
unfoldable pub may_recover : K3sServer → ApiPoll → Bool
may_recover ks poll =
    ks.server_url == "" && (not ks.quorum_recovery_done && ltb 90000000000 poll.elapsed)

-- The loop of WaitForAPIReady, with its timeout as it prints and the 503s in a row.
unfoldable pub wait_from : String → ℕ → K3sServer → Disk → List ApiPoll → Outcome
unfolding may_recover
wait_from timeout consecutive ks disk [] =
    (ks, disk, some (after_text "K3s API server not ready after " timeout))
wait_from timeout consecutive ks disk (poll ∷ polls) =
    let counted = wait_from timeout (suc consecutive) ks disk polls in
    let same = wait_from timeout consecutive ks disk polls in
    let again = wait_from timeout 0 ks disk polls in
    if poll.answers
    then (ks, disk, none)
    else if not (may_recover ks poll)
    then same
    else if not (eqb poll.status 503)
    then again
    else if leb 3 (suc consecutive)
    then recover ks disk
    else counted

-- WaitForAPIReady, over the rounds before its deadline
unfoldable pub wait_for_api_ready : String → K3sServer → Disk → List ApiPoll → Outcome
unfolding wait_from
wait_for_api_ready timeout ks disk polls = wait_from timeout 0 ks disk polls
