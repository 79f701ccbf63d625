-- ===== src/Slurm/Controller.antt =====
-- The process of the controller: node/internal/services/slurm/controller/controller.go. Killing what ran
-- before, making directories, scontrol and sacctmgr are the world's; iptables does what it is told.
use cluster_os.Prelude.{
  ℕ, suc, ◌-◌, String, Bool, true, false, ◌||◌, not, Option, none, some, List, ◌==◌, ◌⊎◌, inl, inr,
  eqb, if◌then◌else◌,
}
use cluster_os.Prelude.Errors.{caused}
use cluster_os.Daemon.Workers.{WorkerInfo}
use cluster_os.Slurm.Config.{SlurmConf, Machine, conf_data}

-- The fields that the methods change and read, slurm.conf, and the REDIRECT rules of iptables for the
-- controller's address. `cmd` numbers the process.
pub record SlurmController : Type 0 where
  pub controller_ip : String
  pub workers : List WorkerInfo
  pub slurmdbd_host : String
  pub cmd : Option ℕ
  pub running : Bool
  pub conf : Option SlurmConf
  pub redirects : ℕ

-- The errors of writing slurm.conf: the temporary file, the template, the rename.
pub record Writing : Type 0 where
  pub create_error : Option String
  pub execute_error : Option String
  pub rename_error : Option String

-- A role after a method, with the error if there is one.
abbrev pub Outcome : Type 0
Outcome = SlurmController × Option String

-- generateConfig
unfoldable pub generate_config : Machine → Writing → SlurmController → Outcome
generate_config m w sc = elim w.create_error [
  | some e ↦ (sc, some (caused "create temp conf" e))
  | none ↦ elim w.execute_error [
    | some e ↦ (sc, some (caused "execute template" e))
    | none ↦ elim w.rename_error [
      | some e ↦ (sc, some (caused "rename conf" e))
      | none ↦ (
        record sc { conf = some (conf_data m sc.controller_ip sc.workers sc.slurmdbd_host) },
        none,
      )
    ]
  ]
]

-- Whether traffic for the controller's address is redirected.
unfoldable pub is_redirected : SlurmController → Bool
is_redirected sc = not (sc.controller_ip == "" || sc.controller_ip == "127.0.0.1")

-- startSlurmctld
unfoldable pub start_slurmctld : String ⊎ ℕ → SlurmController → Outcome
start_slurmctld (inl e) sc = (sc, some (caused "start slurmctld" e))
start_slurmctld (inr pid) sc = (
  record sc {
    cmd = some pid;
    redirects = if is_redirected sc then suc sc.redirects else sc.redirects;
  },
  none,
)

-- The errors of Start before the process: the directories, the munge key and munge.
pub record Preparing : Type 0 where
  pub dirs_error : Option String
  pub write_error : Option String
  pub munge_error : Option String

unfoldable pub ran : Outcome → Outcome
ran (sc, some e) = (sc, some (caused "start slurmctld" e))
ran (sc, none) = (record sc { running = true }, none)

unfoldable pub configured : Preparing → String ⊎ ℕ → Outcome → Outcome
unfolding ran
configured p process (sc, some e) = (sc, some (caused "generate slurm.conf" e))
configured p process (sc, none) = elim p.write_error [
  | some e ↦ (sc, some (caused "write munge key" e))
  | none ↦ elim p.munge_error [
    | some e ↦ (sc, some (caused "start munge" e))
    | none ↦ ran (start_slurmctld process sc)
  ]
]

-- Start
unfoldable pub start : Preparing → Machine → Writing → String ⊎ ℕ → SlurmController → Outcome
unfolding configured
start p m w process sc = elim p.dirs_error [
  | some e ↦ (sc, some (caused "create directories" e))
  | none ↦ configured p process (generate_config m w sc)
]

-- HealthCheck, where `alive` says whether the process takes a signal
unfoldable pub health_check : Bool → String ⊎ ℕ → SlurmController → Outcome
unfolding start_slurmctld
health_check alive process sc = elim sc.cmd [
  | none ↦ start_slurmctld process sc
  | some pid ↦ if alive then (sc, none) else start_slurmctld process (record sc { cmd = none })
]

-- Reconfigure; slurmctld is told by SIGHUP
unfoldable pub reconfigure : List WorkerInfo → Machine → Writing → SlurmController → Outcome
unfolding generate_config
reconfigure workers m w sc = generate_config m w (record sc { workers = workers })

-- stopSlurmctld, which is Stop
unfoldable pub stop : SlurmController → SlurmController
stop sc = elim sc.cmd [
  | none ↦ sc
  | some pid ↦ record sc {
    cmd = none;
    running = false;
    redirects = if is_redirected sc then sc.redirects - 1 else sc.redirects;
  }
]

-- The goroutine that waits for a process, once that has exited.
unfoldable pub reap : ℕ → SlurmController → SlurmController
reap pid sc = elim sc.cmd [
  | none ↦ sc
  | some current ↦ if eqb current pid then record sc { cmd = none; running = false } else sc
]
