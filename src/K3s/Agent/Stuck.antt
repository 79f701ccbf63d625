-- ===== src/K3s/Agent/Stuck.antt =====
-- An agent whose supervisor stays stuck is replaced: HealthCheck and Start of
-- node/internal/services/kubernetes/k3s/agent.go.
use cluster_os.Prelude.{
  ℕ, suc, ◌+◌, ◌≤◌, ◌<◌, String, ◌≡◌, ◌≢◌, refl, ap, Bool, true, Option, none, some, List, [], ◌∷◌,
  ◌==◌, ◌⊎◌, inl, inr, eqb, leb, arith, length, any, Bool-cases, Option-cases, if-both,
}
use mathlib.Core.Option.{some-injective, none-ne-some}
use cluster_os.K3s.Agent.{
  K3sAgent, Joining, Probe, refused, reset, waiting, start_agent, begun, certified, launched,
  purge_agent_cache, kill, kill_at, restart, watched, probed, health_check,
}

-- A health check: whether the process takes a signal, what port 6444 does, and how a start would go.
pub record Check : Type 0 where
  pub alive : Bool
  pub probe : Probe
  pub starting : Joining

unfoldable pub run_checks : List Check → K3sAgent → K3sAgent
run_checks [] ka = ka
run_checks (c ∷ cs) ka = run_checks cs (health_check c.alive c.probe c.starting ka).0

-- The process lives, the supervisor is refused or reset, and a start would not give the same process.
abbrev pub FindsStuck : ℕ → Check → Type 0
FindsStuck pid c = (c.alive ≡ true) × (c.probe ≢ waiting) × (c.starting.process ≢ inr pid)

abbrev pub AllStuck : ℕ → List Check → Type 0
AllStuck pid [] = Unit
AllStuck pid (c ∷ cs) = FindsStuck pid c × AllStuck pid cs

module _ (pid : ℕ) where
  launched_other :
      (p : String ⊎ ℕ) (ka : K3sAgent)
      → p ≢ inr pid
      → ka.cmd ≢ some pid
      → (launched p ka).0.cmd ≢ some pid
  unfolding launched
  launched_other (inl e) ka other h = h
  launched_other (inr new) ka other h = λ same. other (ap inr (some-injective new pid same))

  certified_other :
      (c : String ⊎ ℕ) (a : Joining) (ka : K3sAgent)
      → a.process ≢ inr pid
      → ka.cmd ≢ some pid
      → (certified c a ka).0.cmd ≢ some pid
  unfolding certified purge_agent_cache
  certified_other (inl e) a ka other h = h
  certified_other (inr status) a ka other h =
      let P = λ (r : K3sAgent × Option String). r.0.cmd ≢ some pid in
      if-both P (eqb status 200) _ _ (λ e. launched_other a.process (purge_agent_cache ka) other h)
        (λ e. h)

  begun_other :
      (o : Option String) (a : Joining) (ka : K3sAgent)
      → a.process ≢ inr pid
      → ka.cmd ≢ some pid
      → (begun o a ka).0.cmd ≢ some pid
  unfolding begun
  begun_other (some e) a ka other h = h
  begun_other none a ka other h =
      let P = λ (r : K3sAgent × Option String). r.0.cmd ≢ some pid in
      if-both P a.local_server _ _ (λ l. h)
        (λ l.
          if-both P (ka.server_url == "") _ _ (λ u. h)
            (λ u.
              if-both P (ka.token == "") _ _ (λ t. h)
                (λ t. certified_other a.ca_certs a ka other h)))

  start_agent_other :
      (a : Joining) (ka : K3sAgent)
      → a.process ≢ inr pid
      → ka.cmd ≢ some pid
      → (start_agent a ka).0.cmd ≢ some pid
  unfolding start_agent
  start_agent_other a ka other h = begun_other a.data_dir_error a ka other h

  restart_other :
      (a : Joining) (ka : K3sAgent) → a.process ≢ inr pid → (restart a ka).0.cmd ≢ some pid
  unfolding restart
  restart_other a ka other = start_agent_other a _ other (none-ne-some pid)

  check_other :
      (c : Check) (ka : K3sAgent)
      → FindsStuck pid c
      → ka.cmd ≢ some pid
      → (health_check c.alive c.probe c.starting ka).0.cmd ≢ some pid
  unfolding health_check watched
  check_other c ka (alive, stuck, other) h =
      let P = λ (r : K3sAgent × Option String). r.0.cmd ≢ some pid in
      let again = restart_other c.starting (kill ka) other in
      elim (Option-cases ka.cmd) [
        | inl e ↦
            rw (e, health_check) (start_agent_other c.starting _ other (rw e (none-ne-some pid)))
        | inr (current, e) ↦
            rw (e, health_check)
              (if-both P c.alive _ _
                (λ f.
                  if-both P (leb 5 (probed c.probe ka.consecutive_ca_failures)) _ _ (λ l. again)
                    (λ l. if-both P (leb 18 ka.node_not_found_count) _ _ (λ m. again) (λ m. h)))
                (λ f. restart_other c.starting ka other))
      ]

  run_checks_other :
      (cs : List Check) (ka : K3sAgent)
      → AllStuck pid cs
      → ka.cmd ≢ some pid
      → (run_checks cs ka).cmd ≢ some pid
  unfolding run_checks
  run_checks_other [] ka stuck h = h
  run_checks_other (c ∷ cs) ka stuck h = run_checks_other cs _ stuck.1 (check_other c ka stuck.0 h)

  -- The process has been killed.
  abbrev pub IsKilled : K3sAgent → Type 0
  IsKilled ka = any (eqb pid) ka.killed ≡ true

  kill-IsKilled : (ka : K3sAgent) → (ka.cmd ≡ some pid) ⊎ IsKilled ka → IsKilled (kill ka)
  unfolding kill any
  kill-IsKilled ka (inl holds) = rw (holds, kill_at) (ground arith)
  kill-IsKilled ka (inr before) = elim (Option-cases ka.cmd) [
    | inl e ↦ rw (e, kill_at) before
    | inr (current, e) ↦ rw (e, kill_at) (ground (arith, before))
  ]

  launched-IsKilled : (p : String ⊎ ℕ) (ka : K3sAgent) → IsKilled ka → IsKilled (launched p ka).0
  unfolding launched
  launched-IsKilled (inl e) ka h = h
  launched-IsKilled (inr new) ka h = h

  certified-IsKilled :
      (c : String ⊎ ℕ) (a : Joining) (ka : K3sAgent) → IsKilled ka → IsKilled (certified c a ka).0
  unfolding certified purge_agent_cache
  certified-IsKilled (inl e) a ka h = h
  certified-IsKilled (inr status) a ka h =
      let P = λ (r : K3sAgent × Option String). IsKilled r.0 in
      if-both P (eqb status 200) _ _ (λ e. launched-IsKilled a.process (purge_agent_cache ka) h)
        (λ e. h)

  begun-IsKilled :
      (o : Option String) (a : Joining) (ka : K3sAgent) → IsKilled ka → IsKilled (begun o a ka).0
  unfolding begun
  begun-IsKilled (some e) a ka h = h
  begun-IsKilled none a ka h =
      let P = λ (r : K3sAgent × Option String). IsKilled r.0 in
      if-both P a.local_server _ _ (λ l. h)
        (λ l.
          if-both P (ka.server_url == "") _ _ (λ u. h)
            (λ u.
              if-both P (ka.token == "") _ _ (λ t. h) (λ t. certified-IsKilled a.ca_certs a ka h)))

  restart-IsKilled : (a : Joining) (ka : K3sAgent) → IsKilled ka → IsKilled (restart a ka).0
  unfolding restart start_agent
  restart-IsKilled a ka h = begun-IsKilled a.data_dir_error a _ h

  -- No check brings it back.
  check-IsKilled :
      (c : Check) (ka : K3sAgent)
      → IsKilled ka
      → IsKilled (health_check c.alive c.probe c.starting ka).0
  unfolding health_check watched start_agent
  check-IsKilled c ka h =
      let P = λ (r : K3sAgent × Option String). IsKilled r.0 in
      let again = restart-IsKilled c.starting (kill ka) (kill-IsKilled ka (inr h)) in
      elim (Option-cases ka.cmd) [
        | inl e ↦ rw (e, health_check) (begun-IsKilled c.starting.data_dir_error c.starting _ h)
        | inr (current, e) ↦
            rw (e, health_check)
              (if-both P c.alive _ _
                (λ f.
                  if-both P (leb 5 (probed c.probe ka.consecutive_ca_failures)) _ _ (λ l. again)
                    (λ l. if-both P (leb 18 ka.node_not_found_count) _ _ (λ m. again) (λ m. h)))
                (λ f. restart-IsKilled c.starting ka h))
      ]

  run_checks-IsKilled :
      (cs : List Check) (ka : K3sAgent) → IsKilled ka → IsKilled (run_checks cs ka)
  unfolding run_checks
  run_checks-IsKilled [] ka h = h
  run_checks-IsKilled (c ∷ cs) ka h = run_checks-IsKilled cs _ (check-IsKilled c ka h)

  probed_stuck : (p : Probe) (n : ℕ) → p ≢ waiting → probed p n ≡ suc n
  unfolding probed
  probed_stuck refused n h = refl
  probed_stuck reset n h = refl
  probed_stuck waiting n h = absurd (h refl)

  -- A check that does not kill and replace the process counts one failure more, and fewer than five.
  check_counts :
      (c : Check) (ka : K3sAgent)
      → FindsStuck pid c
      → ka.cmd ≡ some pid
      → let after = (health_check c.alive c.probe c.starting ka).0 in
        ((after.cmd ≢ some pid) × IsKilled after)
        ⊎ ((after.cmd ≡ some pid)
            × (after.consecutive_ca_failures ≡ suc ka.consecutive_ca_failures)
            × (after.consecutive_ca_failures < 5))
  unfolding health_check watched
  check_counts c ka (alive, stuck, other) h =
      let again = restart_other c.starting (kill ka) other in
      let dead = restart-IsKilled c.starting (kill ka) (kill-IsKilled ka (inl h)) in
      let counted = probed_stuck c.probe ka.consecutive_ca_failures stuck in
      elim (Bool-cases (leb 5 (probed c.probe ka.consecutive_ca_failures))) [
        | inl l ↦ rw (h, health_check, alive, l, watched) (inl (again, dead))
        | inr l ↦ elim (Bool-cases (leb 18 ka.node_not_found_count)) [
          | inl m ↦ rw (h, health_check, alive, l, m, watched) (inl (again, dead))
          | inr m ↦ rw (h, health_check, alive, l, m, watched) (inr (h, counted, ground arith))
        ]
      ]

  run_checks_leave :
      (cs : List Check) (ka : K3sAgent)
      → AllStuck pid cs
      → ka.cmd ≡ some pid
      → ka.consecutive_ca_failures < 5
      → 5 ≤ ka.consecutive_ca_failures + length cs
      → ((run_checks cs ka).cmd ≢ some pid) × IsKilled (run_checks cs ka)
  unfolding run_checks
  run_checks_leave [] ka stuck holds few long = absurd (omega arith)
  run_checks_leave (c ∷ cs) ka stuck holds few long = elim (check_counts c ka stuck.0 holds) [
    | inl (left, dead) ↦ (run_checks_other cs _ stuck.1 left, run_checks-IsKilled cs _ dead)
    | inr (same, counted, few') ↦
        run_checks_leave cs _ stuck.1 same few' (omega (arith, counted, long))
  ]

-- An agent's process does not survive five health checks in a row that find it alive and its supervisor on
-- port 6444 refused or reset: it is killed by then, and the role holds no process or another one, where a start
-- never gives the number of this process again and fewer than five failures were on record.
pub stuck_process_replaced :
    (pid : ℕ) (cs : List Check) (ka : K3sAgent)
    → ka.cmd ≡ some pid
    → ka.consecutive_ca_failures < 5
    → AllStuck pid cs
    → 5 ≤ length cs
    → ((run_checks cs ka).cmd ≢ some pid) × (any (eqb pid) (run_checks cs ka).killed ≡ true)
stuck_process_replaced pid cs ka holds few stuck long =
    run_checks_leave pid cs ka stuck holds few (omega arith)
