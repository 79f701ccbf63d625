-- ===== src/Examples/Peers.antt =====
-- A tailnet of one peer.
use cluster_os.Prelude.{
  ℕ, String, ◌≡◌, refl, Bool, true, false, Option, none, some, List, [], ◌∷◌, map, ◌==◌, inl, inr,
  elem, eq_iff, arith,
}
use cluster_os.Daemon.Peers.{Dialled, Peer, Discovery, discover_and_join, peer_addr}
use cluster_os.Daemon.Peers.Cache.{fails, asks, run_cache, run_failures, run_cache_refines}
use cluster_os.Daemon.Peers.Joined.{IsUp, IsWanted, discover_and_join-IsWanted}

run_cache_refines_example :
    run_cache (fails 5 "p" ∷ asks 9 "p" ∷ asks 400000000000 "p" ∷ []) []
    ≡ run_failures (fails 5 "p" ∷ asks 9 "p" ∷ asks 400000000000 "p" ∷ []) []
run_cache_refines_example =
    run_cache_refines (fails 5 "p" ∷ asks 9 "p" ∷ asks 400000000000 "p" ∷ [])
      (omega arith, (omega arith, (omega arith, tt)))

abbrev answered : String → Dialled
answered a = record { addr = a; ok = true; time = 3 }

abbrev tailnet : Discovery
tailnet = record {
  self_ip = "100.64.0.1";
  peers = record { tailscale_ips = "100.64.0.2" ∷ []; online = true } ∷ [];
  serf_port = "7946";
  members = [];
  now = 2;
  dials = map answered;
  join_fails = λ as'. false;
  members_after = [];
  host_of = λ a. a;
  later = 4;
}

only_asked : (asked : List String) (x : String) → IsUp x (tailnet.dials asked) → elem x asked ≡ true
unfolding elem
only_asked [] x h = absurd h
only_asked (a ∷ as') x (inl up) = ground (arith, eq_iff a x, up.0)
only_asked (a ∷ as') x (inr up) = ground (arith, only_asked as' x up)

discover_and_join-IsWanted_example :
    IsWanted tailnet [] "100.64.0.2:7946" tailnet.peers
    × ((asked : List String) × IsUp "100.64.0.2:7946" (tailnet.dials asked))
unfolding discover_and_join peer_addr elem cluster_os.Daemon.Peers.is_unknown
    cluster_os.Daemon.Peers.should_skip cluster_os.Prelude.Maps.lookup
    cluster_os.Prelude.Errors.after_text
discover_and_join-IsWanted_example =
    discover_and_join-IsWanted tailnet [] "100.64.0.2:7946" only_asked refl
