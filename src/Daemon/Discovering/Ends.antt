-- ===== src/Daemon/Discovering/Ends.antt =====
-- runDiscovering (node/internal/daemon/daemon.go) ends, for a lone node too.
use cluster_os.Prelude.{
  ℕ, ◌+◌, ◌*◌, ◌≤◌, ◌<◌, ◌≡◌, refl, false, List, [], ◌∷◌, leb, length, arith, Bool-cases, inl, inr,
}
use cluster_os.Discovery.Member.{get_cluster_size}
use cluster_os.Daemon.Node.{Daemon, Host, electing, set_phase}
use cluster_os.Daemon.Discovering.{Look, Progress, peer_wait_deadline, run_discovering}

-- Nobody stops the daemon, and the rounds are at least two seconds apart, the first at `start` or later.
abbrev pub Paced : ℕ → List Look → Type 0
Paced start [] = Unit
Paced start (look ∷ looks) =
    (look.cancelled ≡ false) × (start ≤ look.elapsed) × Paced (start + 2) looks

run_discovering_from :
    (host : Host) (start : ℕ) (looks : List Look) (d : Daemon)
    → Paced start looks
    → peer_wait_deadline + 2 ≤ start + 2 * length looks
    → start ≤ peer_wait_deadline + 1
    → run_discovering host looks d ≡ (set_phase host electing d, Progress.done)
unfolding run_discovering
run_discovering_from host start [] d paced long early = absurd (omega arith)
run_discovering_from host start (look ∷ looks) d paced long early =
    let later = leb peer_wait_deadline look.elapsed in
    elim (Bool-cases (leb 2 (get_cluster_size look.members))) [
      | inl e ↦ rw (paced.0, e) refl
      | inr e ↦ elim (Bool-cases later) [
        | inl f ↦ rw (paced.0, e, f) refl
        | inr f ↦
            let young : look.elapsed < peer_wait_deadline = ground arith in
            rw (paced.0, e, f)
              (run_discovering_from host (start + 2) looks d paced.2 (omega arith) (omega arith))
      ]
    ]

-- With rounds two seconds apart and nobody stopping the daemon, the phase ends in 46 rounds, whoever is
-- there: the daemon is then electing.
pub run_discovering_ends :
    (host : Host) (looks : List Look) (d : Daemon)
    → Paced 0 looks
    → 46 ≤ length looks
    → run_discovering host looks d ≡ (set_phase host electing d, Progress.done)
run_discovering_ends host looks d paced long =
    run_discovering_from host 0 looks d paced (omega arith) (omega arith)
