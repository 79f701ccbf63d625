-- ===== src/Slurm/Config.antt =====
-- slurm.conf: generateConfig and slurmConfTemplate of
-- node/internal/services/slurm/controller/controller.go, and writeClientConfig of
-- node/internal/services/slurm/worker/worker.go.
use cluster_os.Prelude.{
  String, Bool, ◌||◌, Option, none, some, List, [], ◌∷◌, ◌++◌, ◌==◌, any, if◌then◌else◌,
}
use cluster_os.Prelude.Int.{ℤ, pos, ltb_ℤ}
use cluster_os.Prelude.Errors.{after_text}
use cluster_os.Daemon.Workers.{WorkerInfo}

-- The data of the template. `itoa` is a number as text.
pub record SlurmConf : Type 0 where
  pub controller_node : String
  pub controller_hostname : String
  pub controller_cpus : ℤ
  pub controller_mem_mb : ℤ
  pub controller_gpus : ℤ
  pub has_gpus : Bool
  pub workers : List WorkerInfo
  pub accounting_storage_host : String

-- What generateConfig reads of the machine: its memory in MB if /proc/meminfo tells it, its name or "", its
-- processors and its GPUs.
pub record Machine : Type 0 where
  pub mem_mb : Option ℤ
  pub hostname : String
  pub num_cpu : ℤ
  pub gpu_count : ℤ

unfoldable pub controller_memory : Option ℤ → ℤ
controller_memory none = pos 1024
controller_memory (some mb) = if ltb_ℤ (pos 1024) mb then mb else pos 1024

-- The data that generateConfig fills in.
unfoldable pub conf_data : Machine → String → List WorkerInfo → String → SlurmConf
unfolding controller_memory
conf_data m controller_ip workers slurmdbd_host = record {
  controller_node = controller_ip;
  controller_hostname = if m.hostname == "" then controller_ip else m.hostname;
  controller_cpus = m.num_cpu;
  controller_mem_mb = controller_memory m.mem_mb;
  controller_gpus = m.gpu_count;
  has_gpus = ltb_ℤ (pos 0) m.gpu_count || any (λ w. ltb_ℤ (pos 0) w.gpus) workers;
  workers = workers;
  accounting_storage_host = slurmdbd_host;
}

-- The lines of the template up to those on accounting.
unfoldable pub head_lines : SlurmConf → List String
head_lines c =
    "# SLURM Configuration — auto-generated by Cluster-OS"
    ∷ "ClusterName=cluster-os"
    ∷ after_text "SlurmctldHost="
        (after_text c.controller_hostname (after_text "(" (after_text c.controller_node ")")))
    ∷ "SlurmctldPort=6817"
    ∷ "SlurmctldParameters=enable_configless"
    ∷ "AuthType=auth/munge"
    ∷ "CryptoType=crypto/munge"
    ∷ ""
    ∷ ""
    ∷ []

unfoldable pub accounting_lines : String → List String
accounting_lines host =
    if host == ""
    then "AccountingStorageType=accounting_storage/none" ∷ []
    else "AccountingStorageType=accounting_storage/slurmdbd"
      ∷ after_text "AccountingStorageHost=" host
      ∷ "AccountingStoragePort=30820"
      ∷ "AccountingStorageEnforce=associations,limits,qos"
      ∷ "JobAcctGatherType=jobacct_gather/linux"
      ∷ "JobAcctGatherFrequency=30"
      ∷ []

-- The lines from those on accounting to the nodes.
unfoldable pub middle_lines : SlurmConf → List String
middle_lines c =
    ""
    ∷ ""
    ∷ "SchedulerType=sched/backfill"
    ∷ "SelectType=select/cons_tres"
    ∷ "SelectTypeParameters=CR_Core_Memory"
    ∷ (if c.has_gpus then "GresTypes=gpu" else "")
    ∷ ""
    ∷ "SlurmctldLogFile=/var/log/slurm/slurmctld.log"
    ∷ "SlurmdLogFile=/var/log/slurm/slurmd.log"
    ∷ "SlurmctldDebug=info"
    ∷ "SlurmdDebug=info"
    ∷ ""
    ∷ "StateSaveLocation=/var/lib/slurm/slurmctld"
    ∷ "SlurmdSpoolDir=/var/lib/slurm/slurmd"
    ∷ ""
    ∷ "ProctrackType=proctrack/linuxproc"
    ∷ "TaskPlugin=task/none"
    ∷ ""
    ∷ "MpiDefault=pmix"
    ∷ "MpiParams=ports=12000-12999"
    ∷ ""
    ∷ "# Controller node — also participates as a compute node so jobs can run on it."
    ∷ after_text "# slurmd on the controller uses -N "
        (after_text c.controller_node " to register with this exact NodeName.")
    ∷ []

module _ (itoa : ℤ → String) where
  cpus_text : ℤ → String
  cpus_text n = if ltb_ℤ (pos 1) n then itoa n else "1"

  gres_text : ℤ → String
  gres_text n = if ltb_ℤ (pos 0) n then after_text " Gres=gpu:" (itoa n) else ""

  -- The words of a line, one after the other.
  glued : List String → String
  glued [] = ""
  glued (s ∷ ss) = after_text s (glued ss)

  -- The line of a worker.
  unfoldable pub worker_line : WorkerInfo → String
  unfolding cpus_text gres_text glued
  worker_line w = after_text "NodeName=" (
      glued (
        w.name
        ∷ " NodeAddr="
        ∷ w.addr
        ∷ " CPUs="
        ∷ cpus_text w.cpus
        ∷ " RealMemory="
        ∷ (if ltb_ℤ (pos 0) w.mem_mb then itoa w.mem_mb else "4096")
        ∷ gres_text w.gpus
        ∷ (if ltb_ℤ (pos 0) (pos w.tmp_disk)
            then after_text " TmpDisk=" (itoa (pos w.tmp_disk))
            else "")
        ∷ " State=UNKNOWN"
        ∷ []))

  -- The line of the controller's own node.
  unfoldable pub controller_line : SlurmConf → String
  unfolding cpus_text gres_text glued
  controller_line c = after_text "NodeName=" (
      glued (
        c.controller_node
        ∷ " NodeAddr="
        ∷ c.controller_node
        ∷ " CPUs="
        ∷ cpus_text c.controller_cpus
        ∷ " RealMemory="
        ∷ itoa c.controller_mem_mb
        ∷ gres_text c.controller_gpus
        ∷ " State=UNKNOWN"
        ∷ []))

  -- The lines of the workers, each after an empty one.
  unfoldable pub worker_lines : List WorkerInfo → List String
  unfolding worker_line
  worker_lines [] = []
  worker_lines (w ∷ ws) = "" ∷ worker_line w ∷ worker_lines ws

  -- slurmConfTemplate, line by line
  unfoldable pub slurm_conf : SlurmConf → List String
  unfolding accounting_lines worker_lines controller_line head_lines middle_lines
  slurm_conf c =
      head_lines c
      ++ (accounting_lines c.accounting_storage_host
          ++ (middle_lines c
              ++ (controller_line c
                  ∷ (worker_lines c.workers
                      ++ ("" ∷ ""
                          ∷ "PartitionName=all Nodes=ALL Default=YES MaxTime=INFINITE State=UP"
                          ∷ [])))))

-- writeClientConfig, line by line
unfoldable pub client_conf : String → List String
client_conf controller_ip =
    "# SLURM client config — auto-generated by Cluster-OS (worker node)"
    ∷ "# slurmd uses --conf-server to fetch the authoritative config from slurmctld."
    ∷ "# This file is only used by client commands: squeue, sbatch, sinfo, etc."
    ∷ "ClusterName=cluster-os"
    ∷ after_text "SlurmctldHost=" controller_ip
    ∷ "SlurmctldPort=6817"
    ∷ "AuthType=auth/munge"
    ∷ "CryptoType=crypto/munge"
    ∷ "AccountingStorageType=accounting_storage/none"
    ∷ []
