-- ===== src/Examples/Slurm.antt =====
-- A controller with one worker.
use cluster_os.Prelude.{ℕ, ◌+◌, String, ◌≡◌, refl, true, false, none, some, List, [], ◌∷◌, arith}
use cluster_os.Prelude.Int.{ℤ, pos}
use cluster_os.Daemon.Workers.{WorkerInfo}
use cluster_os.Slurm.Config.{SlurmConf, conf_data}
use cluster_os.Slurm.Controller.{SlurmController, is_redirected, stop}
use cluster_os.Slurm.Restarts.{crash_all, crashes_leave_redirects}

abbrev one_worker : List WorkerInfo
one_worker =
    record {
      name = "100.64.0.2";
      addr = "100.64.0.2";
      cpus = pos 4;
      mem_mb = pos 8000;
      gpus = pos 0;
      tmp_disk = 0;
    }
    ∷ []

abbrev conf : SlurmConf
conf =
    conf_data (record { mem_mb = none; hostname = "n1"; num_cpu = pos 2; gpu_count = pos 1 })
      "100.64.0.1" one_worker ""

abbrev itoa : ℤ → String
itoa n = "4"

abbrev controller : SlurmController
controller = record {
  controller_ip = "100.64.0.1";
  workers = one_worker;
  slurmdbd_host = "";
  cmd = some 5;
  running = true;
  conf = some conf;
  redirects = 1;
}

crashes_leave_redirects_example :
    let after = crash_all 5 (6 ∷ 7 ∷ []) controller in
    (after.running ≡ false)
    × ((last : ℕ) × (after.cmd ≡ some last))
    × ((stop after).redirects ≡ 0 + 2)
unfolding is_redirected
crashes_leave_redirects_example =
    crashes_leave_redirects controller 5 6 (7 ∷ []) refl refl (omega arith)
