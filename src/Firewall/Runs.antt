-- ===== src/Firewall/Runs.antt =====
-- The lines of node/internal/daemon/daemon.go and node/internal/services/kubernetes/k3s/server.go are run: the
-- loops end, and each chain is left as Firewall.Lines says.
use cluster_os.Prelude.{
  ℕ, zero, suc, ◌+◌, ◌<◌, String, ◌≡◌, refl, sym, ap, ◌∙◌, Bool, true, false, Option, some, List,
  [], ◌∷◌, ◌++◌, inl, inr, if◌then◌else◌, Bool-cases, length, arith,
}
use cluster_os.Firewall.Rules.{
  Chain, same_chain, Rule, has_rule, Command, append, insert, delete, check, without_first,
  rules_after, policy_after, Iptables, Step, runs, once, once_first, removes, calls, remove_all,
  step, steps,
}
use cluster_os.Firewall.Lines.{
  without, without_absent, line_after, lines_after, line_policy, lines_policy, same_chain-eq,
  same_chain_self, without-without_first, length-line_after, length-without_first,
}

module _ (ipt : Iptables) where
  open ipt use {
    Tables, run, call, rules, policy, rules-run, policy-run, run-check, rules-call, policy-call,
  }

  -- What a line leaves, from the tables that it finds.
  abbrev pub Leaves :
      Option Tables → (Chain → List Rule → List Rule) → (Chain → String → String) → Tables → Type 0
  Leaves after on_rules on_policy t =
      (u : Tables) × (after ≡ some u)
      × ((c : Chain) → rules c u ≡ on_rules c (rules c t))
      × ((c : Chain) → policy c u ≡ on_policy c (policy c t))

  delete_one :
      (c d : Chain) (r : Rule) (t : Tables)
      → rules d (run (delete c r) (run (check c r) t).0).0
        ≡ (if same_chain d c then without_first r (rules d t) else rules d t)
  delete_one c d r t =
      rw (rules-run (delete c r) d (run (check c r) t).0, rules-run (check c r) d t) refl

  without_none :
      (c d : Chain) (r : Rule) (t : Tables)
      → has_rule r (rules c t) ≡ false
      → (if same_chain d c then without r (rules d t) else rules d t) ≡ rules d t
  without_none c d r t h = elim (Bool-cases (same_chain d c)) [
    | inl k ↦ rw (k, same_chain-eq d c k) (without_absent r (rules c t) h)
    | inr k ↦ rw k refl
  ]

  without_one :
      (b : Bool) (r : Rule) (rs now : List Rule)
      → now ≡ (if b then without_first r rs else rs)
      → (if b then without r now else now) ≡ (if b then without r rs else rs)
  without_one true r rs now e = rw e (without-without_first r rs)
  without_one false r rs now e = e

  -- The loop ends when its fuel is more than the rules of the chain, and leaves no copy of the rule.
  remove_all_ends :
      (fuel : ℕ) (c : Chain) (r : Rule) (t : Tables)
      → length (rules c t) < fuel
      → Leaves (remove_all ipt fuel c r t) (line_after (removes c r)) (line_policy (removes c r)) t
  unfolding remove_all
  remove_all_ends zero c r t h = absurd (omega (arith, h))
  remove_all_ends (suc fuel) c r t h =
      let checked = (run (check c r) t).0 in
      let fewer = (run (delete c r) checked).0 in
      elim (Bool-cases (has_rule r (rules c t))) [
        | inl k ↦
            let gone : rules c fewer ≡ without_first r (rules c t) =
              delete_one c c r t
              ∙ ap (λ b. if b then without_first r (rules c t) else rules c t)
                  (same_chain_self c) in
            let short : length (rules c fewer) < fuel =
              rw gone (omega (arith, h, length-without_first r (rules c t) k)) in
            let rest = remove_all_ends fuel c r fewer short in
            (
              rest.0,
              rw (run-check c r t, k) rest.1,
              λ d.
                  rest.2 d
                  ∙ without_one (same_chain d c) r (rules d t) (rules d fewer) (delete_one c d r t),
              λ d. rest.3 d ∙ (policy-run (delete c r) d checked ∙ policy-run (check c r) d t),
            )
        | inr k ↦ (
          checked,
          rw (run-check c r t, k) refl,
          λ d. rules-run (check c r) d t ∙ sym (without_none c d r t k),
          λ d. policy-run (check c r) d t,
        )
      ]

  -- A rule that -C looks for, and that a command adds when it is missing.
  added :
      (cmd : Command) (on_rules : List Rule → List Rule) (c : Chain) (r : Rule) (t : Tables)
      → ((d : Chain) (rs : List Rule)
          → rules_after cmd d rs ≡ (if same_chain d c then on_rules rs else rs))
      → ((d : Chain) (old : String) → policy_after cmd d old ≡ old)
      → Leaves
          (some (
            if (run (check c r) t).1
            then (run (check c r) t).0
            else (run cmd (run (check c r) t).0).0))
          (λ d rs. if same_chain d c then (if has_rule r rs then rs else on_rules rs) else rs)
          (λ d old. old)
          t
  added cmd on_rules c r t does keeps =
      let checked = (run (check c r) t).0 in
      elim (Bool-cases (has_rule r (rules c t))) [
        | inl k ↦ (
          checked,
          rw (run-check c r t, k) refl,
          λ d. rules-run (check c r) d t ∙ unchanged d k,
          λ d. policy-run (check c r) d t,
        )
        | inr k ↦ (
          (run cmd checked).0,
          rw (run-check c r t, k) refl,
          λ d.
              rules-run cmd d checked
              ∙ (ap (rules_after cmd d) (rules-run (check c r) d t)
                  ∙ (does d (rules d t) ∙ changed d k)),
          λ d. policy-run cmd d checked ∙ (keeps d (policy d checked) ∙ policy-run (check c r) d t),
        )
      ]
    where
      unchanged :
          (d : Chain)
          → has_rule r (rules c t) ≡ true
          → rules d t ≡ (
              if same_chain d c
              then (if has_rule r (rules d t) then rules d t else on_rules (rules d t))
              else rules d t)
      unchanged d k = elim (Bool-cases (same_chain d c)) [
        | inl e ↦ rw (e, same_chain-eq d c e, k) refl
        | inr e ↦ rw e refl
      ]

      changed :
          (d : Chain)
          → has_rule r (rules c t) ≡ false
          → (if same_chain d c then on_rules (rules d t) else rules d t) ≡ (
              if same_chain d c
              then (if has_rule r (rules d t) then rules d t else on_rules (rules d t))
              else rules d t)
      changed d k = elim (Bool-cases (same_chain d c)) [
        | inl e ↦ rw (e, same_chain-eq d c e, k) refl
        | inr e ↦ rw e refl
      ]

  step_ends :
      (fuel : ℕ) (s : Step) (t : Tables)
      → ((c : Chain) → length (rules c t) < fuel)
      → Leaves (step ipt fuel s t) (line_after s) (line_policy s) t
  unfolding step
  step_ends fuel (runs cmd) t h =
      ((run cmd t).0, refl, λ c. rules-run cmd c t, λ c. policy-run cmd c t)
  step_ends fuel (once c r) t h =
      added (append c r) (λ rs. rs ++ (r ∷ [])) c r t (λ d rs. refl) (λ d old. refl)
  step_ends fuel (once_first c r) t h =
      added (insert c r) (λ rs. r ∷ rs) c r t (λ d rs. refl) (λ d old. refl)
  step_ends fuel (removes c r) t h = remove_all_ends fuel c r t (h c)
  step_ends fuel (calls args) t h =
      (call args t, refl, λ c. rules-call args c t, λ c. policy-call args c t)

  steps_next :
      (fuel : ℕ) (s : Step) (ss : List Step) (t u : Tables)
      → step ipt fuel s t ≡ some u
      → steps ipt fuel (s ∷ ss) t ≡ steps ipt fuel ss u
  unfolding steps
  steps_next fuel s ss t u h = rw (steps, h) refl

  -- Lines end with what they make of each chain by itself, if the fuel is more than the rules of any chain and
  -- the lines together.
  pub steps_end :
      (fuel : ℕ) (ss : List Step) (t : Tables)
      → ((c : Chain) → length (rules c t) + length ss < fuel)
      → Leaves (steps ipt fuel ss t) (lines_after ss) (lines_policy ss) t
  unfolding steps
  steps_end fuel [] t h = (t, refl, λ c. refl, λ c. refl)
  steps_end fuel (s ∷ ss) t h =
      let first = step_ends fuel s t (λ c. omega (arith, h c)) in
      let short : (c : Chain) → length (rules c first.0) + length ss < fuel =
        λ c. rw (first.2 c) (omega (arith, h c, length-line_after s c (rules c t))) in
      let rest = steps_end fuel ss first.0 short in
      (
        rest.0,
        steps_next fuel s ss t first.0 first.1 ∙ rest.1,
        λ c. rest.2 c ∙ ap (lines_after ss c) (first.2 c),
        λ c. rest.3 c ∙ ap (lines_policy ss c) (first.3 c),
      )
