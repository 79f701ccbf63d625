-- ===== src/Examples/Servers.antt =====
-- A K3s server that leads.
use cluster_os.Prelude.{◌≡◌, refl, true, false, none, some, [], ◌∷◌, ◌⊎◌, inr, eq_iff, false≢true}
use cluster_os.Prelude.Split.{trim_space}
use cluster_os.K3s.Server.{K3sServer, Disk, Etcd, Starting, ApiPoll, wait_for_api_ready}
use cluster_os.K3s.Server.Lifecycle.{
  Event, starts, checks, waits, stops, reaps, IsConsistent, run_role, run_role-IsConsistent,
}
use cluster_os.K3s.Server.Keeping.{run_role_keeps_etcd}
use cluster_os.K3s.Server.Healing.{check_after, healed, quorum_lost_heals}

abbrev leader : K3sServer
leader = record {
  node_ip = "100.64.0.1";
  server_url = "";
  join_token = "";
  cmd = none;
  running = false;
  start_count = 0;
  quorum_recovery_done = false;
}

abbrev kept_etcd : Etcd
kept_etcd = record { marker = some "100.64.0.1"; contents = some "members" }

abbrev disk : Disk
disk = record { tls = true; cred = true; etcd = some kept_etcd }

abbrev starting : Starting
starting = record { data_dir_error = none; lan_ip = "192.168.1.5"; process = inr 7 }

abbrev early : ApiPoll
early = record { answers = false; elapsed = 5000000000; status = 0 }

abbrev late : ApiPoll
late = record { answers = false; elapsed = 95000000000; status = 503 }

run_role_keeps_etcd_example :
    let after =
      run_role (starts starting ∷ reaps 7 ∷ checks true starting ∷ stops ∷ []) (leader, disk) in
    ((false ≡ false) × (after.0.quorum_recovery_done ≡ true)) ⊎ (after.1.etcd ≡ some kept_etcd)
unfolding trim_space
run_role_keeps_etcd_example =
    run_role_keeps_etcd (starts starting ∷ reaps 7 ∷ checks true starting ∷ stops ∷ []) leader disk
      kept_etcd "100.64.0.1" refl refl refl refl

run_role-IsConsistent_example :
    IsConsistent
      (run_role (starts starting ∷ waits "1m" (late ∷ []) ∷ reaps 7 ∷ []) (leader, disk)).0
unfolding cluster_os.K3s.Server.Lifecycle.held
run_role-IsConsistent_example =
    run_role-IsConsistent (starts starting ∷ waits "1m" (late ∷ []) ∷ reaps 7 ∷ []) (leader, disk)
      refl

quorum_lost_heals_example :
    check_after true starting
      (wait_for_api_ready "10m" leader disk (early ∷ late ∷ late ∷ late ∷ []))
    ≡ healed leader disk 7
quorum_lost_heals_example =
    quorum_lost_heals "10m" leader disk (early ∷ []) late late late [] true starting 7 (refl, refl)
      (λ e. false≢true ((eq_iff "100.64.0.1" "").1 e)) (refl, tt) (refl, refl, refl)
      (refl, refl, refl) (refl, refl, refl) refl refl
