-- ===== src/Slurm/Worker.antt =====
-- The process of a worker: node/internal/services/slurm/worker/worker.go. Waiting for slurmctld, and killing
-- what ran before, are the world's.
use cluster_os.Prelude.{
  ℕ, String, Bool, true, false, Option, none, some, List, [], ◌∷◌, ◌==◌, ◌⊎◌, inl, inr, eqb,
  if◌then◌else◌,
}
use cluster_os.Prelude.Errors.{caused, after_text}
use cluster_os.Slurm.Config.{client_conf}

-- The fields that the methods change and read, and slurm.conf by its lines.
pub record SlurmWorker : Type 0 where
  pub controller_ip : String
  pub node_ip : String
  pub skip_client_config : Bool
  pub cmd : Option ℕ
  pub running : Bool
  pub conf : List String

-- NewSLURMWorkerRole and NewSLURMWorkerRoleNoConfig; the file is as it was left.
unfoldable pub new_worker : Bool → String → String → List String → SlurmWorker
new_worker skip controller_ip node_ip conf = record {
  controller_ip = controller_ip;
  node_ip = node_ip;
  skip_client_config = skip;
  cmd = none;
  running = false;
  conf = conf;
}

-- A role after a method, with the error if there is one.
abbrev pub Outcome : Type 0
Outcome = SlurmWorker × Option String

-- The name under which slurmd registers.
unfoldable pub node_name : String → SlurmWorker → String
node_name hostname sw = if sw.node_ip == "" then hostname else sw.node_ip

-- The flags of slurmd.
unfoldable pub slurmd_args : String → SlurmWorker → List String
unfolding node_name
slurmd_args hostname sw =
    "-D" ∷ "--conf-server" ∷ after_text sw.controller_ip ":6817" ∷ "-N" ∷ node_name hostname sw ∷ []

-- startSlurmd
unfoldable pub start_slurmd : String ⊎ ℕ → SlurmWorker → Outcome
start_slurmd (inl e) sw = (sw, some (caused "start slurmd" e))
start_slurmd (inr pid) sw = (record sw { cmd = some pid }, none)

-- The errors of Start before the process: the munge key, munge and slurm.conf.
pub record Preparing : Type 0 where
  pub write_error : Option String
  pub munge_error : Option String
  pub config_error : Option String

unfoldable pub ran : Outcome → Outcome
ran (sw, some e) = (sw, some (caused "start slurmd" e))
ran (sw, none) = (record sw { running = true }, none)

-- writeClientConfig
unfoldable pub write_client_config : Option String → SlurmWorker → Outcome
write_client_config (some e) sw = (sw, some (caused "write slurm client config" e))
write_client_config none sw = (record sw { conf = client_conf sw.controller_ip }, none)

unfoldable pub configured : String ⊎ ℕ → Outcome → Outcome
unfolding ran start_slurmd
configured process (sw, some e) = (sw, some e)
configured process (sw, none) = ran (start_slurmd process sw)

-- Start
unfoldable pub start : Preparing → String ⊎ ℕ → SlurmWorker → Outcome
unfolding configured write_client_config
start p process sw = elim p.write_error [
  | some e ↦ (sw, some (caused "write munge key" e))
  | none ↦ elim p.munge_error [
    | some e ↦ (sw, some (caused "start munge" e))
    | none ↦
        configured process
          (if sw.skip_client_config then (sw, none) else write_client_config p.config_error sw)
  ]
]

-- HealthCheck, where `alive` says whether the process takes a signal
unfoldable pub health_check : Bool → String ⊎ ℕ → SlurmWorker → Outcome
unfolding start_slurmd
health_check alive process sw = elim sw.cmd [
  | none ↦ start_slurmd process sw
  | some pid ↦ if alive then (sw, none) else start_slurmd process (record sw { cmd = none })
]

-- stopSlurmd
unfoldable pub stop_slurmd : SlurmWorker → SlurmWorker
stop_slurmd sw = elim sw.cmd [ none ↦ sw | some pid ↦ record sw { cmd = none; running = false } ]

-- One round of the wait in Stop: whether the context is done, and whether squeue shows running jobs.
pub record Draining : Type 0 where
  pub cancelled : Bool
  pub has_jobs : Bool

-- The rounds that Stop waits before it stops slurmd, of those before its deadline.
unfoldable pub drained : List Draining → List Draining
drained [] = []
drained (d ∷ ds) =
    let rest = drained ds in if d.cancelled then [] else if d.has_jobs then d ∷ rest else []

-- The goroutine that waits for a process, once that has exited.
unfoldable pub reap : ℕ → SlurmWorker → SlurmWorker
reap pid sw = elim sw.cmd [
  | none ↦ sw
  | some current ↦ if eqb current pid then record sw { cmd = none; running = false } else sw
]
