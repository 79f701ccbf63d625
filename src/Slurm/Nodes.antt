-- ===== src/Slurm/Nodes.antt =====
-- Which nodes slurm.conf names: slurmConfTemplate of node/internal/services/slurm/controller/controller.go.
use cluster_os.Prelude.{
  String, ◌≡◌, refl, ap, false, List, [], ◌∷◌, ◌++◌, map, filter, arith, ◌==◌, if◌then◌else◌,
  if-both,
}
use mathlib.Core.List.{append-nil}
use cluster_os.Prelude.Int.{ℤ}
use cluster_os.Prelude.Words.{has_prefix, has_prefix-after_text}
use cluster_os.Daemon.Workers.{WorkerInfo}
use cluster_os.Slurm.Config.{
  SlurmConf, slurm_conf, worker_line, controller_line, worker_lines, accounting_lines, head_lines,
  middle_lines,
}

-- The lines that declare a node.
unfoldable pub node_lines : List String → List String
node_lines = filter (λ l. has_prefix l "NodeName=")

worker_lines-node_lines :
    (itoa : ℤ → String) (ws : List WorkerInfo) (rest : List String)
    → node_lines (worker_lines itoa ws ++ rest)
      ≡ map (λ w. worker_line itoa w) ws ++ node_lines rest
unfolding node_lines worker_lines filter worker_line has_prefix
worker_lines-node_lines itoa [] rest = refl
worker_lines-node_lines itoa (w ∷ ws) rest =
    rw (has_prefix-after_text "NodeName=" _ "NodeName=" refl)
      (ap (λ l. worker_line itoa w ∷ l) (worker_lines-node_lines itoa ws rest))

node_lines-append :
    (ls rest : List String) → node_lines (ls ++ rest) ≡ node_lines ls ++ node_lines rest
unfolding node_lines filter
node_lines-append [] rest = refl
node_lines-append (l ∷ ls) rest = ground (arith, node_lines-append ls rest)

head_lines-node_lines : (c : SlurmConf) → node_lines (head_lines c) ≡ []
unfolding node_lines filter has_prefix head_lines
head_lines-node_lines c = rw (has_prefix-after_text "SlurmctldHost=" _ "NodeName=" refl) refl

accounting_lines-node_lines : (host : String) → node_lines (accounting_lines host) ≡ []
unfolding node_lines filter has_prefix accounting_lines
accounting_lines-node_lines host =
    if-both (λ (l : List String). node_lines l ≡ []) (host == "") _ _ (λ e. refl)
      (λ e. rw (has_prefix-after_text "AccountingStorageHost=" host "NodeName=" refl) refl)

middle_lines-node_lines : (c : SlurmConf) → node_lines (middle_lines c) ≡ []
unfolding node_lines filter has_prefix middle_lines
middle_lines-node_lines c =
    let gres : has_prefix (if c.has_gpus then "GresTypes=gpu" else "") "NodeName=" ≡ false =
      if-both (λ (l : String). has_prefix l "NodeName=" ≡ false) c.has_gpus _ _ (λ e. refl)
        (λ e. refl) in
    rw (gres, has_prefix-after_text "# slurmd on the controller uses -N " _ "NodeName=" refl) refl

controller_line-node_lines :
    (itoa : ℤ → String) (c : SlurmConf) (rest : List String)
    → node_lines (controller_line itoa c ∷ rest) ≡ controller_line itoa c ∷ node_lines rest
unfolding node_lines filter has_prefix controller_line
controller_line-node_lines itoa c rest =
    rw (has_prefix-after_text "NodeName=" _ "NodeName=" refl) refl

-- slurm.conf declares the controller's own node and then every worker that generateConfig is given, each
-- with its line, in order, and no other node.
pub slurm_conf-node_lines :
    (itoa : ℤ → String) (c : SlurmConf)
    → node_lines (slurm_conf itoa c)
      ≡ controller_line itoa c ∷ map (λ w. worker_line itoa w) c.workers
unfolding slurm_conf node_lines filter has_prefix
slurm_conf-node_lines itoa c =
    rw
      (
        node_lines-append (head_lines c) _,
        head_lines-node_lines c,
        node_lines-append (accounting_lines c.accounting_storage_host) _,
        accounting_lines-node_lines c.accounting_storage_host,
        node_lines-append (middle_lines c) _,
        middle_lines-node_lines c,
        controller_line-node_lines itoa c _,
        worker_lines-node_lines itoa c.workers _,
      )
      (ap (λ l. controller_line itoa c ∷ l) (append-nil _))
