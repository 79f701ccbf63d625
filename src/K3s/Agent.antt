-- ===== src/K3s/Agent.antt =====
-- The K3s agent role: node/internal/services/kubernetes/k3s/agent.go, in what it does to its process, to
-- its counters and to the cached connection config.
pub mod Checks
pub mod Stuck
pub mod Lines
use cluster_os.Prelude.{
  ℕ, zero, suc, String, Bool, true, false, ◌&&◌, ◌||◌, not, Option, none, some, List, [], ◌∷◌, ◌++◌,
  ◌==◌, ◌⊎◌, inl, inr, leb, eqb, filter, if◌then◌else◌,
}
use cluster_os.Prelude.Errors.{caused, after_text}
use cluster_os.Prelude.Words.{contains, has_prefix}

-- The fields of the role. `cmd` numbers the process, `killed` has those that HealthCheck has killed, `cached_config` is the directory agent/etc below the
-- data directory, and `consecutive_ca_failures` the variable of the package that HealthCheck keeps.
pub record K3sAgent : Type 0 where
  pub server_url : String
  pub token : String
  pub node_ip : String
  pub cmd : Option ℕ
  pub running : Bool
  pub node_not_found_count : ℕ
  pub consecutive_ca_failures : ℕ
  pub cached_config : Option String
  pub killed : List ℕ

-- What the world answers to a start: the error of creating the data directory, whether something listens on
-- port 6443 here, the error or the status of /cacerts, and the error or the number of the process. `itoa`
-- is a number as text. Killing what ran before and unmounting volumes only touch what is not modelled.
pub record Joining : Type 0 where
  pub data_dir_error : Option String
  pub local_server : Bool
  pub ca_certs : String ⊎ ℕ
  pub process : String ⊎ ℕ
  pub itoa : ℕ → String

-- NewK3sAgentRole; the directory is as it was left.
unfoldable pub new_agent : String → String → String → ℕ → Option String → K3sAgent
new_agent server_url token node_ip failures cached = record {
  server_url = server_url;
  token = token;
  node_ip = node_ip;
  cmd = none;
  running = false;
  node_not_found_count = 0;
  consecutive_ca_failures = failures;
  cached_config = cached;
  killed = [];
}

-- The flags of the process.
unfoldable pub agent_args : K3sAgent → List String
agent_args ka =
    let base =
      "agent" ∷ "--server" ∷ ka.server_url ∷ "--token" ∷ ka.token ∷ "--data-dir"
      ∷ "/var/lib/rancher/k3s" ∷ "--pause-image" ∷ "registry.k8s.io/pause:3.6" ∷ [] in
    let address = if ka.node_ip == "" then [] else "--node-ip" ∷ ka.node_ip ∷ [] in
    base ++ (address ++ ("--flannel-iface" ∷ "tailscale0" ∷ []))

-- The environment of the process.
unfoldable pub filtered_env : List String → List String
filtered_env env = filter (λ e. not (has_prefix e "JOURNAL_STREAM=")) env

-- purgeAgentCache
unfoldable pub purge_agent_cache : K3sAgent → K3sAgent
purge_agent_cache ka = record ka { cached_config = none }

unfoldable pub launched : String ⊎ ℕ → K3sAgent → K3sAgent × Option String
launched (inl e) ka = (ka, some (caused "k3s agent start" e))
launched (inr pid) ka = (record ka { cmd = some pid; running = true }, none)

unfoldable pub certified : String ⊎ ℕ → Joining → K3sAgent → K3sAgent × Option String
certified (inl e) a ka = (
  ka,
  some (
      caused
        (after_text (after_text "k3s server " ka.server_url)
          " not ready (CA certs unavailable, will retry)")
        e),
)
certified (inr status) a ka =
    if eqb status 200 then launched a.process (purge_agent_cache ka) else (
      ka,
      some (
          after_text
            (after_text
              (after_text (after_text "k3s server " ka.server_url) " CA cert endpoint returned ")
              (a.itoa status))
            " (not ready, will retry)"),
    )

unfoldable pub begun : Option String → Joining → K3sAgent → K3sAgent × Option String
begun (some e) a ka = (ka, some (caused "create data dir" e))
begun none a ka =
    if a.local_server
    then (record ka { running = true }, none)
    else if ka.server_url == ""
    then (ka, some "k3s server URL is empty")
    else if ka.token == ""
    then (ka, some "k3s token is empty")
    else certified a.ca_certs a ka

-- Start
unfoldable pub start_agent : Joining → K3sAgent → K3sAgent × Option String
start_agent a ka = begun a.data_dir_error a ka

-- Whether a line of the kubelet says that it does not find its node.
unfoldable pub names_lost_node : String → Bool
names_lost_node line =
    contains line "node"
    && (contains line "not found"
        && (contains line "kubelet_node_status"
            || (contains line "nodelease" || contains line "eviction_manager")))

-- filterLine, in what it counts
unfoldable pub filter_line : String → K3sAgent → K3sAgent
filter_line line ka =
    if contains line "failed to get CA certs"
    then ka
    else if names_lost_node line
    then record ka { node_not_found_count = suc ka.node_not_found_count }
    else ka

-- What HealthCheck finds on port 6444: no connection, or a read that is reset, or anything else.
pub data Probe : Type 0 where
  refused : Probe
  reset : Probe
  waiting : Probe

unfoldable pub probed : Probe → ℕ → ℕ
probed refused n = suc n
probed reset n = suc n
probed waiting n = 0

kill_at : Option ℕ → K3sAgent → K3sAgent
kill_at none ka = ka
kill_at (some pid) ka = record ka { killed = pid ∷ ka.killed }

-- The process of the role is killed.
unfoldable pub kill : K3sAgent → K3sAgent
unfolding kill_at
kill ka = kill_at ka.cmd ka

-- The restart of a process that has been killed or has died.
unfoldable pub restart : Joining → K3sAgent → K3sAgent × Option String
restart a ka = start_agent a (record ka {
  cmd = none;
  running = false;
  consecutive_ca_failures = 0;
  node_not_found_count = 0;
})

unfoldable pub watched : Probe → Joining → K3sAgent → K3sAgent × Option String
unfolding kill
watched probe a ka =
    let failures = probed probe ka.consecutive_ca_failures in
    if leb 5 failures
    then restart a (kill ka)
    else if leb 18 ka.node_not_found_count
    then restart a (kill ka)
    else (record ka { consecutive_ca_failures = failures }, none)

-- HealthCheck, where `alive` says whether the process takes a signal
unfoldable pub health_check : Bool → Probe → Joining → K3sAgent → K3sAgent × Option String
health_check alive probe a ka = elim ka.cmd [
  | none ↦ start_agent a (record ka { consecutive_ca_failures = 0; node_not_found_count = 0 })
  | some pid ↦ if alive then watched probe a ka else restart a ka
]

-- Stop
unfoldable pub stop : K3sAgent → K3sAgent
stop ka = elim ka.cmd [ none ↦ ka | some pid ↦ record ka { cmd = none; running = false } ]

-- The goroutine that waits for a process, once that has exited.
unfoldable pub reap : ℕ → K3sAgent → K3sAgent
reap pid ka = elim ka.cmd [
  | none ↦ ka
  | some current ↦ if eqb current pid then record ka { cmd = none; running = false } else ka
]
