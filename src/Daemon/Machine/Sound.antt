-- ===== src/Daemon/Machine/Sound.antt =====
-- What holds of a daemon between the turns of its phase machine (node/internal/daemon/daemon.go).
use cluster_os.Prelude.{
  ◌≡◌, refl, ap, ◌∙◌, Bool, true, false, none, some, Bool-cases, inl, inr, List, [], ◌∷◌, arith,
  leb, ◌&&◌, if◌then◌else◌,
}
use cluster_os.Daemon.Node.{
  Daemon, Host, Phase, discovering, electing, provisioning, joining, joining_cp, ready, set_phase,
  publish_tag, drop_tags,
}
use cluster_os.Discovery.Member.{get_cluster_size}
use cluster_os.Daemon.Discovering.{Look, Progress, peer_wait_deadline, run_discovering}
use cluster_os.Daemon.Electing.{
  Ballot, stabilise, after_wait, clear_stale_tags, run_electing, decide,
}
use cluster_os.Daemon.Electing.Outcome.{decide_exact}
use cluster_os.Daemon.Joining.{run_joining, run_joining_cp}
use cluster_os.Daemon.Joining.Joins.{place-run_joining}
use cluster_os.Daemon.Joining.Phases.{provisions, run_joining-phase}
use cluster_os.Daemon.Joining.Secondary.{run_joining_cp-follows}
use cluster_os.Daemon.Provisioning.{Outcome, run_provisioning}
use cluster_os.Daemon.Provisioning.Publishing.{Ends, run_provisioning-Ends}
use cluster_os.Daemon.Ready.{run_ready}
use cluster_os.Daemon.Ready.Ticks.{run_ready-Kept}
use cluster_os.Daemon.Machine.{
  World, leadership_lost, after_provisioning, after_joining, run_phase, turn, run_machine,
}

-- What a phase asks of the leader flag and of the SLURM controller: a node provisions as the leader and
-- joins as no leader, and a ready node runs a SLURM controller exactly if it is the leader.
abbrev pub SoundIn : Phase → Bool → Bool → Type 0
SoundIn provisioning is_leader slurm_ctrl = is_leader ≡ true
SoundIn joining is_leader slurm_ctrl = is_leader ≡ false
SoundIn joining_cp is_leader slurm_ctrl = is_leader ≡ false
SoundIn ready is_leader slurm_ctrl = slurm_ctrl ≡ is_leader
SoundIn _ is_leader slurm_ctrl = Unit

abbrev pub IsSound : Daemon → Type 0
IsSound d = SoundIn d.phase d.is_leader d.slurm_ctrl

-- A node that is no leader, runs no SLURM controller and does not provision is sound.
follower : (p : Phase) → provisions p ≡ false → SoundIn p false false
follower discovering h = tt
follower electing h = tt
follower provisioning h = absurd (ground arith)
follower joining_cp h = refl
follower joining h = refl
follower ready h = refl

IsSound-at :
    (d : Daemon) (p : Phase) (is_leader : Bool)
    → d.phase ≡ p
    → d.is_leader ≡ is_leader
    → SoundIn p is_leader d.slurm_ctrl
    → IsSound d
IsSound-at d p is_leader same leads h = rw (same, leads) h

follower-IsSound :
    (d : Daemon)
    → d.is_leader ≡ false
    → d.slurm_ctrl ≡ false
    → provisions d.phase ≡ false
    → IsSound d
follower-IsSound d follows idle h =
    IsSound-at d d.phase false refl follows (rw idle (follower d.phase h))

run_discovering-IsSound :
    (host : Host) (looks : List Look) (d : Daemon)
    → d.phase ≡ discovering
    → IsSound (run_discovering host looks d).0
unfolding run_discovering set_phase
run_discovering-IsSound host [] d h = IsSound-at d discovering d.is_leader h refl tt
run_discovering-IsSound host (look ∷ looks) d h =
    let rest = run_discovering-IsSound host looks d h in
    let same = IsSound-at d discovering d.is_leader h refl tt in
    elim (Bool-cases look.cancelled) [
      | inl e ↦ rw e same
      | inr e ↦ elim (Bool-cases (leb 2 (get_cluster_size look.members))) [
        | inl f ↦ rw (e, f) tt
        | inr f ↦ elim (Bool-cases (leb peer_wait_deadline look.elapsed)) [
          | inl g ↦ rw (e, f, g) tt
          | inr g ↦ rw (e, f, g) rest
        ]
      ]
    ]

decided :
    (adopts listed wins slurm_ctrl : Bool)
    → SoundIn
        (if adopts
          then (if wins then provisioning else joining)
          else (if listed then joining_cp else joining))
        (adopts && wins)
        slurm_ctrl
decided true listed true slurm_ctrl = refl
decided true listed false slurm_ctrl = refl
decided false true wins slurm_ctrl = refl
decided false false wins slurm_ctrl = refl

after_wait-IsSound :
    (p : Progress) (host : Host) (ballot : Ballot) (d : Daemon)
    → d.phase ≡ electing
    → IsSound (after_wait p host ballot d).0
unfolding after_wait
after_wait-IsSound Progress.done host ballot d h =
    let exact = decide_exact host ballot d in
    IsSound-at (decide host ballot d) _ _ exact.2 exact.1 (decided _ _ _ _)
after_wait-IsSound Progress.cancelled host ballot d h = IsSound-at d electing d.is_leader h refl tt
after_wait-IsSound Progress.waiting host ballot d h = IsSound-at d electing d.is_leader h refl tt

after_provisioning-IsSound :
    (host : Host) (w : World) (d : Daemon) (o : Outcome)
    → d.is_leader ≡ true
    → Ends host w.provisions d o
    → IsSound (after_provisioning host w.members o)
unfolding after_provisioning set_phase
after_provisioning-IsSound host w d (after, none) leads ends =
    IsSound-at after ready true ends.0.0 (ends.1 ∙ leads) ends.0.2
after_provisioning-IsSound host w d (after, some e) leads ends =
    elim (Bool-cases (leadership_lost e)) [ inl lost ↦ rw lost refl | inr kept ↦ rw kept tt ]

after_joining-IsSound :
    (host : Host) (o : Outcome)
    → o.0.is_leader ≡ false
    → o.0.slurm_ctrl ≡ false
    → provisions o.0.phase ≡ false
    → IsSound (after_joining host o)
unfolding after_joining set_phase
after_joining-IsSound host (d, none) follows idle h = follower-IsSound d follows idle h
after_joining-IsSound host (d, some e) follows idle h = tt

run_ready-IsSound :
    (host : Host) (w : World) (d : Daemon)
    → d.phase ≡ ready
    → d.slurm_ctrl ≡ d.is_leader
    → IsSound (run_ready host w.ticks d).daemon
run_ready-IsSound host w d h same =
    let kept = run_ready-Kept host w.ticks d in
    let after = (run_ready host w.ticks d).daemon in
    elim (Bool-cases (run_ready host w.ticks d).left) [
      | inl left ↦ IsSound-at after joining false (kept.rejoins left).0 (kept.rejoins left).1 refl
      | inr stays ↦
          IsSound-at after ready d.is_leader ((kept.stays stays).0 ∙ h) (kept.stays stays).1
            (kept.idle stays ∙ same)
    ]

run_phase-IsSound :
    (p : Phase) (host : Host) (w : World) (d : Daemon)
    → d.phase ≡ p
    → SoundIn p d.is_leader d.slurm_ctrl
    → IsSound (run_phase p host w d)
unfolding run_phase run_electing clear_stale_tags publish_tag drop_tags
run_phase-IsSound discovering host w d here h = run_discovering-IsSound host w.looks d here
run_phase-IsSound electing host w d here h =
    after_wait-IsSound (stabilise 0 0 w.rounds) host w.ballot (clear_stale_tags host d) here
run_phase-IsSound provisioning host w d here h =
    after_provisioning-IsSound host w d (run_provisioning host w.provisions d) h
      (run_provisioning-Ends host w.provisions d)
run_phase-IsSound joining_cp host w d here h =
    let same = run_joining_cp-follows host w.joins d (ap provisions here) in
    after_joining-IsSound host (run_joining_cp host w.joins d) (ap (λ p. p.0) same ∙ h)
      (ap (λ p. p.1) same) (ap (λ p. p.2) same)
run_phase-IsSound joining host w d here h =
    let same = place-run_joining host w.joins d in
    after_joining-IsSound host (run_joining host w.joins d) (ap (λ p. p.0) same ∙ h)
      (ap (λ p. p.2) same) (run_joining-phase host w.joins d (ap provisions here))
run_phase-IsSound ready host w d here h = run_ready-IsSound host w d here h

-- However often the phase machine turns, and whatever the world answers, in any order of phases, errors
-- and restarts: a node that provisions is the leader, a node that joins is not, and a ready node runs a
-- SLURM controller exactly if it is the leader, if this holds at the start.
pub run_machine-IsSound :
    (host : Host) (ws : List World) (d : Daemon) → IsSound d → IsSound (run_machine host ws d)
unfolding run_machine turn
run_machine-IsSound host [] d h = h
run_machine-IsSound host (w ∷ ws) d h =
    run_machine-IsSound host ws (turn host w d) (run_phase-IsSound d.phase host w d refl h)
