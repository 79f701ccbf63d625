-- ===== src/Firewall/Rules.antt =====
-- Chains and rules of iptables, the commands on them, and the three loops that
-- node/internal/daemon/daemon.go and node/internal/services/kubernetes/k3s/server.go write around them.
use cluster_os.Prelude.{
  ℕ, zero, suc, String, ◌≡◌, Bool, true, false, ◌&&◌, ◌||◌, Option, none, some, List, [], ◌∷◌, ◌++◌,
  ◌==◌, if◌then◌else◌, eqb,
}

pub data Chain : Type 0 where
  input output forward nat_prerouting nat_output : Chain

abbrev pub chain_number : Chain → ℕ
chain_number input = 0
chain_number output = 1
chain_number forward = 2
chain_number nat_prerouting = 3
chain_number nat_output = 4

-- Whether two chains are the same.
abbrev pub same_chain : Chain → Chain → Bool
same_chain c d = eqb (chain_number c) (chain_number d)

-- The arguments before -j, and those after it.
pub record Rule : Type 0 where
  pub matches : List String
  pub jump : List String

abbrev pub same_texts : List String → List String → Bool
same_texts [] [] = true
same_texts (s ∷ ss) (t ∷ ts) = s == t && same_texts ss ts
same_texts _ _ = false

abbrev pub same_rule : Rule → Rule → Bool
same_rule q r = same_texts q.matches r.matches && same_texts q.jump r.jump

-- Whether the rule stands among these.
abbrev pub has_rule : Rule → List Rule → Bool
has_rule r [] = false
has_rule r (q ∷ qs) = same_rule r q || has_rule r qs

-- -A, -I with the position 1, -D, -C, -F and -P
pub data Command : Type 0 where
  append insert delete check : Chain → Rule → Command
  flush : Chain → Command
  set_policy : Chain → String → Command

-- The rules without the first that is this one.
abbrev pub without_first : Rule → List Rule → List Rule
without_first r [] = []
without_first r (q ∷ qs) = let rest = without_first r qs in if same_rule r q then qs else q ∷ rest

-- What iptables(8) says of a chain's rules after a command.
abbrev pub rules_after : Command → Chain → List Rule → List Rule
rules_after (append d r) c rs = if same_chain c d then rs ++ (r ∷ []) else rs
rules_after (insert d r) c rs = if same_chain c d then r ∷ rs else rs
rules_after (delete d r) c rs = if same_chain c d then without_first r rs else rs
rules_after (check d r) c rs = rs
rules_after (flush d) c rs = if same_chain c d then [] else rs
rules_after (set_policy d target) c rs = rs

abbrev pub policy_after : Command → Chain → String → String
policy_after (set_policy d target) c old = if same_chain c d then target else old
policy_after _ c old = old

-- What the code uses of iptables: a command, and whether it succeeds. Any other command, such as one of a ufw
-- that is not enabled, leaves the chains alone.
pub record Iptables : Type 1 where
  pub Tables : Type 0
  pub run : Command → Tables → Tables × Bool
  pub call : List String → Tables → Tables
  pub rules : Chain → Tables → List Rule
  pub policy : Chain → Tables → String
  pub rules-run :
      (cmd : Command) (c : Chain) (t : Tables)
      → rules c (run cmd t).0 ≡ rules_after cmd c (rules c t)
  pub policy-run :
      (cmd : Command) (c : Chain) (t : Tables)
      → policy c (run cmd t).0 ≡ policy_after cmd c (policy c t)
  pub run-check :
      (c : Chain) (r : Rule) (t : Tables) → (run (check c r) t).1 ≡ has_rule r (rules c t)
  pub rules-call : (args : List String) (c : Chain) (t : Tables) → rules c (call args t) ≡ rules c t
  pub policy-call :
      (args : List String) (c : Chain) (t : Tables) → policy c (call args t) ≡ policy c t

-- A line of the two functions: `run`, `once`, the insertion of a rule that is missing, the loop that deletes a
-- rule as long as it is there, or another command.
pub data Step : Type 0 where
  runs : Command → Step
  once : Chain → Rule → Step
  once_first : Chain → Rule → Step
  removes : Chain → Rule → Step
  calls : List String → Step

module _ (ipt : Iptables) where
  open ipt use {Tables, run, call}

  -- The loop that deletes a rule as long as -C finds it, if it ends by then.
  unfoldable pub remove_all : ℕ → Chain → Rule → Tables → Option Tables
  remove_all zero c r t = none
  remove_all (suc fuel) c r t =
      let (checked, found) = run (check c r) t in
      let rest = remove_all fuel c r (run (delete c r) checked).0 in
      if found then rest else some checked

  unfoldable pub step : ℕ → Step → Tables → Option Tables
  step fuel (runs cmd) t = some (run cmd t).0
  step fuel (once c r) t =
      let (checked, found) = run (check c r) t in
      some (if found then checked else (run (append c r) checked).0)
  step fuel (once_first c r) t =
      let (checked, found) = run (check c r) t in
      some (if found then checked else (run (insert c r) checked).0)
  step fuel (removes c r) t = remove_all fuel c r t
  step fuel (calls args) t = some (call args t)

  -- The lines one after the other.
  unfoldable pub steps : ℕ → List Step → Tables → Option Tables
  steps fuel [] t = some t
  steps fuel (s ∷ ss) t = elim (step fuel s t) [ none ↦ none | some u ↦ steps fuel ss u ]
