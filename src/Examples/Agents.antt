-- ===== src/Examples/Agents.antt =====
-- A K3s agent whose supervisor is stuck, and one that has lost its node.
use cluster_os.Prelude.{
  ◌≢◌, ◌≡◌, any, eqb, refl, Bool, true, false, none, some, List, [], ◌∷◌, inr, arith, ap,
  false≢true,
}
use mathlib.Core.Sum.{inr-injective}
use cluster_os.K3s.Agent.{K3sAgent, Joining, Probe, refused, reset, waiting}
use cluster_os.K3s.Agent.Checks.{Event, checks, logs}
use cluster_os.K3s.Agent.Stuck.{Check, FindsStuck, run_checks, stuck_process_replaced}

abbrev agent : K3sAgent
agent = record {
  server_url = "https://100.64.0.1:6443";
  token = "t";
  node_ip = "100.64.0.2";
  cmd = some 7;
  running = true;
  node_not_found_count = 3;
  consecutive_ca_failures = 1;
  cached_config = none;
  killed = [];
}

abbrev joining : Joining
joining = record {
  data_dir_error = none;
  local_server = false;
  ca_certs = inr 200;
  process = inr 8;
  itoa = λ n. "200";
}

abbrev stuck : Check
stuck = record { alive = true; probe = reset; starting = joining }

is_waiting : Probe → Bool
is_waiting refused = false
is_waiting reset = false
is_waiting waiting = true

finds_stuck : FindsStuck 7 stuck
unfolding is_waiting
finds_stuck =
    (refl, (λ e. false≢true (ap is_waiting e)), (λ e. absurd (ground (arith, inr-injective 8 7 e))))

stuck_process_replaced_example :
    let after = run_checks (stuck ∷ stuck ∷ stuck ∷ stuck ∷ stuck ∷ []) agent in
    (after.cmd ≢ some 7) × (any (eqb 7) after.killed ≡ true)
stuck_process_replaced_example =
    stuck_process_replaced 7 (stuck ∷ stuck ∷ stuck ∷ stuck ∷ stuck ∷ []) agent refl (omega arith)
      (finds_stuck, (finds_stuck, (finds_stuck, (finds_stuck, (finds_stuck, tt))))) (omega arith)

abbrev told : List Event
told = logs "kubelet_node_status.go: node w1 not found" ∷ checks true waiting joining ∷ []
