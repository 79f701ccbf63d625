-- ===== src/Slurm/Restarts.antt =====
-- What crashes and restarts of slurmctld leave behind: HealthCheck, stopSlurmctld and the goroutine that waits
-- for the process, of node/internal/services/slurm/controller/controller.go.
use cluster_os.Prelude.{
  ℕ, suc, ◌+◌, ◌-◌, ◌≤◌, ◌≡◌, refl, ap, subst, sym, ◌∙◌, true, false, none, some, List, [], ◌∷◌,
  inr, eqb, length, arith,
}
use cluster_os.Slurm.Controller.{
  SlurmController, start_slurmctld, health_check, stop, reap, is_redirected,
}

-- The process exits, and the next health check starts another with this number.
unfoldable pub crash_and_check : ℕ → ℕ → SlurmController → SlurmController
unfolding health_check reap
crash_and_check pid new sc = (health_check false (inr new) (reap pid sc)).0

-- Crashes and restarts, one after the other, of the process that runs each time.
unfoldable pub crash_all : ℕ → List ℕ → SlurmController → SlurmController
crash_all pid [] sc = sc
crash_all pid (new ∷ rest) sc = crash_all new rest (crash_and_check pid new sc)

eqb_self : (n : ℕ) → eqb n n ≡ true
eqb_self n = ground arith

reap_exited :
    (pid : ℕ) (sc : SlurmController)
    → sc.cmd ≡ some pid
    → reap pid sc ≡ record sc { cmd = none; running = false }
unfolding reap
reap_exited pid sc c = rw (c, reap, eqb_self pid) refl

-- What a crash and the restart after it change.
crashed : ℕ → SlurmController → SlurmController
crashed new sc = record sc { cmd = some new; running = false; redirects = suc sc.redirects }

crash_and_check-crashed :
    (pid new : ℕ) (sc : SlurmController)
    → sc.cmd ≡ some pid
    → is_redirected sc ≡ true
    → crash_and_check pid new sc ≡ crashed new sc
unfolding crash_and_check health_check start_slurmctld crashed is_redirected
crash_and_check-crashed pid new sc c r =
    ap (λ x. (health_check false (inr new) x).0) (reap_exited pid sc c)
    ∙ (rw (r, start_slurmctld) refl)

-- The role holds a process, says that it does not run, and has so many rules when it is stopped.
abbrev pub Leaves : ℕ → SlurmController → Type 0
Leaves rules after =
    (after.running ≡ false)
    × ((last : ℕ) × (after.cmd ≡ some last))
    × ((stop after).redirects ≡ rules)

crash_all-Leaves :
    (more : List ℕ) (sc : SlurmController) (pid new : ℕ)
    → sc.cmd ≡ some pid
    → is_redirected sc ≡ true
    → 1 ≤ sc.redirects
    → Leaves ((sc.redirects - 1) + length (new ∷ more)) (crash_all pid (new ∷ more) sc)
unfolding crash_all stop crashed is_redirected
crash_all-Leaves [] sc pid new c r h =
    subst (Leaves _) (sym (crash_and_check-crashed pid new sc c r))
      (refl, (new, refl), (rw (r, stop) (omega arith)))
crash_all-Leaves (next ∷ more) sc pid new c r h =
    let rest = crash_all-Leaves more (crashed new sc) new next refl r (omega arith) in
    let count : (suc sc.redirects - 1) + length (next ∷ more)
        ≡ (sc.redirects - 1) + length (new ∷ next ∷ more) =
      omega arith in
    subst
      (λ x.
        Leaves ((sc.redirects - 1) + length (new ∷ next ∷ more)) (crash_all new (next ∷ more) x))
      (sym (crash_and_check-crashed pid new sc c r))
      (subst (λ n. Leaves n (crash_all new (next ∷ more) (crashed new sc))) count rest)

-- Where traffic for the controller is redirected, after one crash and restart of slurmctld or more, the role
-- holds a process and says that it does not run, and when it is stopped then, one REDIRECT rule is left
-- for every crash, beside all but one of those that there were before.
pub crashes_leave_redirects :
    (sc : SlurmController) (pid new : ℕ) (more : List ℕ)
    → sc.cmd ≡ some pid
    → is_redirected sc ≡ true
    → 1 ≤ sc.redirects
    → let after = crash_all pid (new ∷ more) sc in
      (after.running ≡ false)
      × ((last : ℕ) × (after.cmd ≡ some last))
      × ((stop after).redirects ≡ (sc.redirects - 1) + length (new ∷ more))
crashes_leave_redirects sc pid new more c r h = crash_all-Leaves more sc pid new c r h
