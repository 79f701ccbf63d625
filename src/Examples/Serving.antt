-- ===== src/Examples/Serving.antt =====
-- The later phases of node/internal/daemon/daemon.go on a cluster of two nodes.
use cluster_os.Prelude.{
  ℕ, zero, suc, ◌+◌, String, ◌≡◌, ◌≢◌, inl, inr, refl, sym, ◌∙◌, Bool, true, false, ◌&&◌, Option,
  none, some, List, [], ◌∷◌, ◌==◌, false≢true, eq_iff, arith, if◌then◌else◌,
}
use cluster_os.Prelude.Maps.{lookup}
use cluster_os.Discovery.Tags.{SetTags, Takes}
use cluster_os.Daemon.Election.{Healthz, compute_reachable_leader, find_running_leader}
use cluster_os.Daemon.Slurm.{Starting}
use cluster_os.Daemon.Node.{
  Daemon, Host, Phase, discovering, electing, provisioning, joining, joining_cp, ready, set_phase,
  get_leader_tag,
}
use cluster_os.Daemon.Node.LeaderTags.{Poll, TagPolls, read_leader_cluster_tags}
use cluster_os.Daemon.Provisioning
use cluster_os.Daemon.Provisioning.Publishing.{Ends, run_provisioning-Ends}
use cluster_os.Daemon.Provisioning.Published.{Sees, read-publish}
use cluster_os.Daemon.Joining
use cluster_os.Daemon.Machine.{World, run_machine}
use cluster_os.Daemon.Machine.Sound.{IsSound, run_machine-IsSound}
use cluster_os.Daemon.Ready.{Tick, Ready, run_ready}
use cluster_os.Daemon.Ready.Ticks.{Kept, run_ready-Kept}
use cluster_os.Daemon.Ready.Rejoin.{run_ready_leaves, former_leader_never_leaves}
use cluster_os.Examples.Phases.{
  set_tags, munge_key, host, daemon, peer, alone, rounds, all_healthy, ballot,
}

abbrev starting : Starting
starting = record {
  dirs_error = none;
  config_error = none;
  write_error = none;
  munge_error = none;
  process_error = none;
}

abbrev provisions : Provisioning.Answers
provisions = record {
  node_ip = "10.0.0.1";
  etcd_reachable = λ ip. true;
  start_error = none;
  api_error = none;
  token = inr "tok";
  random_key = inr munge_key;
  key_written = true;
  members = peer "a" [] ∷ [];
  disks = λ n. none;
  ctrl = starting;
  worker = starting;
}

run_provisioning-Ends_example :
    Ends
      (host "a")
      provisions
      (daemon provisioning)
      (Provisioning.run_provisioning (host "a") provisions (daemon provisioning))
run_provisioning-Ends_example = run_provisioning-Ends (host "a") provisions (daemon provisioning)

abbrev url : String
url = "https://10.0.0.1:6443"

abbrev published : Daemon
published =
    Provisioning.publish_cluster_ready (host "a") url "tok" "10.0.0.1" munge_key
      (daemon provisioning)

abbrev poll : Poll
poll = record { cancelled = false; members = peer "a" published.tags ∷ peer "b" [] ∷ [] }

abbrev tag_polls : TagPolls
tag_polls = record { for_url = poll ∷ []; for_token = poll ∷ []; for_key = poll ∷ [] }

takes : Takes set_tags
takes = record { taken = λ existing tags h. refl }

full : (s : String) → (s == "") ≡ false → s ≢ ""
full s f e = false≢true (sym f ∙ (eq_iff s "").1 e)

sees : Sees "a" published.tags (poll ∷ [])
unfolding cluster_os.Daemon.Node.tags_of cluster_os.Daemon.Node.current_leader
sees = (refl, refl)

read-publish_example :
    read_leader_cluster_tags (host "b") "a" tag_polls none
    ≡ some (record { server_url = url; token = "tok"; munge_key = munge_key })
unfolding cluster_os.Discovery.Tags.update_tags
read-publish_example =
    read-publish (host "a") (host "b") (daemon provisioning) "a" url "tok" "10.0.0.1" munge_key
      tag_polls none takes refl (full url refl) (full "tok" refl) (full "Bw==" refl) refl sees sees
      sees

abbrev joins : Joining.Answers
joins = record {
  members = poll.members;
  healthz = all_healthy;
  for_ready = poll ∷ [];
  synced = poll.members;
  tag_polls = tag_polls;
  local_ip = "10.0.0.2";
  ts_ip = "";
  api_polls = [];
  k3s_error = none;
  k3s_ready_error = none;
  worker = starting;
}

abbrev down : Tick
down = record {
  k3s_nodes = 0;
  k3s_nodes_compared = 0;
  members = peer "b" [] ∷ [];
  answers = λ ip. false;
  itoa = λ n. "";
}

abbrev ten : List Tick
ten = down ∷ down ∷ down ∷ down ∷ down ∷ down ∷ down ∷ down ∷ down ∷ down ∷ []

run_ready-Kept_example :
    Kept
      (daemon ready)
      (run_ready (host "b") ten (daemon ready)).daemon
      (run_ready (host "b") ten (daemon ready)).left
run_ready-Kept_example = run_ready-Kept (host "b") ten (daemon ready)

run_ready_leaves_example : (run_ready (host "b") ten (daemon ready)).left ≡ true
run_ready_leaves_example =
    run_ready_leaves (host "b") ten (daemon ready) refl refl (full url refl)
      (refl, (refl, (refl, (refl, (refl, (refl, (refl, (refl, (refl, (refl, tt))))))))))
      (omega arith)

-- A leader of two nodes meets one of three.
abbrev meets : Tick
meets = record {
  k3s_nodes = 2;
  k3s_nodes_compared = 2;
  members = peer "a" (("phase", "ready") ∷ ("k3s-server", url) ∷ ("k3s-nodes", "3") ∷ []) ∷ [];
  answers = λ ip. true;
  itoa = λ n. "2";
}

abbrev leader : Daemon
leader = record (daemon ready) { is_leader = true; is_cp_server = true; slurm_ctrl = true }

former_leader_never_leaves_example :
    run_ready
      (host "b")
      ten
      (Joining.run_joining (host "b") joins (run_ready (host "b") (meets ∷ []) leader).daemon).0
    ≡ record {
      daemon =
          (Joining.run_joining
            (host "b")
            joins
            (run_ready (host "b") (meets ∷ []) leader).daemon).0;
      server_unreachable = 0;
      left = false;
    }
unfolding run_ready cluster_os.Daemon.Ready.tick cluster_os.Daemon.Ready.leader_tick
    cluster_os.Daemon.Election.is_established lookup cluster_os.Daemon.Election.gives_way
    cluster_os.Prelude.Int.atoi
former_leader_never_leaves_example =
    former_leader_never_leaves (host "b") (meets ∷ []) joins ten leader refl refl

-- A lone node, which elects itself and provisions.
abbrev world : World
world = record {
  looks = alone 46 0;
  rounds = rounds 16 0;
  ballot = record ballot { members = peer "a" [] ∷ [] };
  provisions = provisions;
  members = peer "a" [] ∷ [];
  joins = joins;
  ticks = [];
}

run_machine-IsSound_example :
    IsSound (run_machine (host "a") (world ∷ world ∷ world ∷ world ∷ []) (daemon discovering))
run_machine-IsSound_example =
    run_machine-IsSound (host "a") (world ∷ world ∷ world ∷ world ∷ []) (daemon discovering) tt
