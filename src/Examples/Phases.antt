-- ===== src/Examples/Phases.antt =====
-- The first phases of node/internal/daemon/daemon.go on a cluster of two nodes.
use cluster_os.Prelude.{
  ℕ, zero, suc, ◌+◌, String, ◌≤◌, ◌≡◌, refl, elem, true, false, ◌&&◌, none, some, List, [], ◌∷◌,
  ◌==◌, arith, if◌then◌else◌,
}
use cluster_os.Prelude.Maps.{Map}
use cluster_os.Auth.{Bytes}
use cluster_os.State.{new_cluster_state}
use cluster_os.Discovery.Member.{Member, alive, get_alive_members}
use cluster_os.Discovery.Tags.{SetTags}
use cluster_os.Daemon.Election.{Healthz, compute_reachable_leader, find_running_leader, strip_dirty}
use cluster_os.Daemon.Node.{Daemon, Host, Phase, electing, phase_text}
use cluster_os.Daemon.Discovering.{Look, Progress}
use cluster_os.Daemon.Discovering.Ends.{Paced}
use cluster_os.Daemon.Electing.{Round, Ballot, decide, run_electing, clear_stale_tags}
use cluster_os.Daemon.Electing.Outcome.{Rounds, run_electing_ends}
use cluster_os.Daemon.Electing.Unique.{at_most_one_provisions}
use cluster_os.Daemon.Election.Winner.{alive_names}
use cluster_os.Daemon.Election.Agreement.{AllEligible}

abbrev pub set_tags : SetTags
set_tags existing tags = (tags, true)

abbrev pub munge_key : Bytes
munge_key = 7 ∷ []

abbrev pub host : String → Host
host name = record {
  node_id = name;
  node_name = name;
  version = "v1";
  set_tags = set_tags;
  std_encode = λ key. "Bw==";
  std_decode = λ text. some munge_key;
}

abbrev pub daemon : Phase → Daemon
daemon p = record {
  phase = p;
  is_leader = false;
  is_cp_server = false;
  leader_name = "";
  cp_servers = [];
  slurm_ctrl = false;
  k3s_server_url = "https://10.0.0.1:6443";
  cluster_state = new_cluster_state;
  roles = [];
  tags = [];
  munge_file = none;
  etcd = record { has_etcd = false; peers_file = none };
  retrying = [];
}

abbrev pub peer : String → Map String → Member
peer name tags = record { name = name; addr = "10.0.0.1"; port = 7946; status = alive; tags = tags }

abbrev pub look : ℕ → Look
look elapsed = record { cancelled = false; members = peer "a" [] ∷ []; elapsed = elapsed }

-- A node that stays alone.
abbrev pub alone : ℕ → ℕ → List Look
alone zero start = []
alone (suc n) start = look start ∷ alone n (start + 2)

alone-Paced : (n start : ℕ) → Paced start (alone n start)
alone-Paced zero start = tt
alone-Paced (suc n) start = (refl, omega arith, alone-Paced n (start + 2))

abbrev pub round : ℕ → Round
round started = record {
  started = started;
  cancelled = false;
  members = peer "a" [] ∷ [];
  elapsed = started + 2;
}

abbrev pub rounds : ℕ → ℕ → List Round
rounds zero start = []
rounds (suc n) start = round start ∷ rounds n (start + 2)

rounds-Rounds : (n start : ℕ) → Rounds start (rounds n start)
rounds-Rounds zero start = tt
rounds-Rounds (suc n) start = (refl, omega arith, rounds-Rounds n (start + 2))

-- Rounds that start later.
later-Rounds : (n first start : ℕ) → first ≤ start → Rounds first (rounds n start)
later-Rounds zero first start h = tt
later-Rounds (suc n) first start h = (refl, h, later-Rounds n (first + 2) (start + 2) (omega arith))

abbrev pub all_healthy : Healthz
all_healthy name = some 200

abbrev pub ballot : Ballot
ballot = record {
  members = peer "a" [] ∷ peer "b" [] ∷ [];
  healthz = all_healthy;
  local_ip = "10.0.0.1";
}

run_electing_ends_example :
    run_electing (host "a") (rounds 16 0) ballot (daemon electing)
    ≡ (decide (host "a") ballot (clear_stale_tags (host "a") (daemon electing)), Progress.done)
run_electing_ends_example =
    run_electing_ends (host "a") (rounds 16 0) ballot (daemon electing) (rounds-Rounds 16 0)
      (omega arith)

abbrev other_ballot : Ballot
other_ballot = record {
  members = peer "b" [] ∷ peer "a" [] ∷ [];
  healthz = all_healthy;
  local_ip = "10.0.0.2";
}

same_names :
    (s : String) → elem s (alive_names ballot.members) ≡ elem s (alive_names other_ballot.members)
unfolding elem get_alive_members cluster_os.Prelude.filter
same_names s = ground arith

among : elem "a" (alive_names ballot.members) ≡ true
unfolding elem get_alive_members cluster_os.Prelude.filter
among = refl

other_among : elem "b" (alive_names other_ballot.members) ≡ true
unfolding elem get_alive_members cluster_os.Prelude.filter
other_among = refl

eligible : AllEligible all_healthy (strip_dirty "v1") (get_alive_members ballot.members)
unfolding elem get_alive_members cluster_os.Prelude.filter
    cluster_os.Daemon.Election.version_mismatch cluster_os.Prelude.Maps.lookup
    cluster_os.Daemon.Election.is_ghost
eligible = (refl, (refl, tt))

other_eligible : AllEligible all_healthy (strip_dirty "v1") (get_alive_members other_ballot.members)
unfolding elem get_alive_members cluster_os.Prelude.filter
    cluster_os.Daemon.Election.version_mismatch cluster_os.Prelude.Maps.lookup
    cluster_os.Daemon.Election.is_ghost
other_eligible = (refl, (refl, tt))

at_most_one_provisions_example :
    let after_a = (run_electing (host "a") (rounds 16 0) ballot (daemon electing)).0 in
    let after_b = (run_electing (host "b") (rounds 16 1) other_ballot (daemon electing)).0 in
    ((after_a.is_leader && after_b.is_leader) ≡ false)
    × ((phase_text after_a.phase == "provisioning" && phase_text after_b.phase == "provisioning")
        ≡ false)
at_most_one_provisions_example =
    at_most_one_provisions (host "a") (host "b") (rounds 16 0) (rounds 16 1) ballot other_ballot
      (daemon electing) (daemon electing) refl (rounds-Rounds 16 0) (omega arith)
      (later-Rounds 16 0 1 (omega arith)) (omega arith) same_names among other_among eligible
      other_eligible
