-- ===== src/Firewall/Lines.antt =====
-- What the lines of node/internal/daemon/daemon.go and node/internal/services/kubernetes/k3s/server.go make of
-- one chain, as functions on its rules.
use cluster_os.Prelude.{
  ℕ, zero, suc, ◌≤◌, String, ◌≡◌, refl, sym, ap, ◌∙◌, Bool, true, false, List, [], ◌∷◌, ◌++◌, inl,
  inr, if◌then◌else◌, Bool-cases, length, length-append, arith,
}
use cluster_os.Firewall.Rules.{
  Chain, input, output, forward, nat_prerouting, nat_output, chain_number, same_chain, Rule,
  same_rule, has_rule, append, insert, delete, check, flush, set_policy, without_first, rules_after,
  policy_after, Step, runs, once, once_first, removes, calls,
}

-- The rules without every copy of this one.
abbrev pub without : Rule → List Rule → List Rule
without r [] = []
without r (q ∷ qs) = let rest = without r qs in if same_rule r q then rest else q ∷ rest

-- The rules with this one, at the end if it is new.
abbrev pub with_last : Rule → List Rule → List Rule
with_last r rs = if has_rule r rs then rs else rs ++ (r ∷ [])

-- The same, at the start.
abbrev pub with_first : Rule → List Rule → List Rule
with_first r rs = if has_rule r rs then rs else r ∷ rs

-- What a line makes of the rules of a chain.
abbrev pub line_after : Step → Chain → List Rule → List Rule
line_after (runs cmd) c rs = rules_after cmd c rs
line_after (once d r) c rs = if same_chain c d then with_last r rs else rs
line_after (once_first d r) c rs = if same_chain c d then with_first r rs else rs
line_after (removes d r) c rs = if same_chain c d then without r rs else rs
line_after (calls args) c rs = rs

abbrev pub lines_after : List Step → Chain → List Rule → List Rule
lines_after [] c rs = rs
lines_after (s ∷ ss) c rs = lines_after ss c (line_after s c rs)

abbrev pub line_policy : Step → Chain → String → String
line_policy (runs cmd) c old = policy_after cmd c old
line_policy _ c old = old

abbrev pub lines_policy : List Step → Chain → String → String
lines_policy [] c old = old
lines_policy (s ∷ ss) c old = lines_policy ss c (line_policy s c old)

chain_at : ℕ → Chain
chain_at zero = input
chain_at (suc zero) = output
chain_at (suc (suc zero)) = forward
chain_at (suc (suc (suc zero))) = nat_prerouting
chain_at (suc (suc (suc (suc n)))) = nat_output

chain_at_number : (c : Chain) → chain_at (chain_number c) ≡ c
unfolding chain_at
chain_at_number input = refl
chain_at_number output = refl
chain_at_number forward = refl
chain_at_number nat_prerouting = refl
chain_at_number nat_output = refl

pub same_chain-eq : (c d : Chain) → same_chain c d ≡ true → c ≡ d
same_chain-eq c d h =
    let same : chain_number c ≡ chain_number d = ground (arith, h) in
    sym (chain_at_number c) ∙ (ap chain_at same ∙ chain_at_number d)

pub same_chain_self : (c : Chain) → same_chain c c ≡ true
same_chain_self c = ground arith

pub without-without_first :
    (r : Rule) (rs : List Rule) → without r (without_first r rs) ≡ without r rs
without-without_first r [] = refl
without-without_first r (q ∷ qs) = elim (Bool-cases (same_rule r q)) [
  | inl h ↦ rw h refl
  | inr h ↦ rw (h, h) (ap (λ l. q ∷ l) (without-without_first r qs))
]

pub without_absent : (r : Rule) (rs : List Rule) → has_rule r rs ≡ false → without r rs ≡ rs
without_absent r [] h = refl
without_absent r (q ∷ qs) h = elim (Bool-cases (same_rule r q)) [
  | inl k ↦ absurd (ground (arith, h, k))
  | inr k ↦ rw k (ap (λ l. q ∷ l) (without_absent r qs (ground (arith, h, k))))
]

pub length-without_first :
    (r : Rule) (rs : List Rule)
    → has_rule r rs ≡ true
    → suc (length (without_first r rs)) ≡ length rs
length-without_first r [] h = absurd (ground (arith, h))
length-without_first r (q ∷ qs) h = elim (Bool-cases (same_rule r q)) [
  | inl k ↦ rw k refl
  | inr k ↦ rw k (ap suc (length-without_first r qs (ground (arith, h, k))))
]

length-without : (r : Rule) (rs : List Rule) → length (without r rs) ≤ length rs
length-without r [] = omega arith
length-without r (q ∷ qs) = elim (Bool-cases (same_rule r q)) [
  | inl k ↦ rw k (omega (arith, length-without r qs))
  | inr k ↦ rw k (omega (arith, length-without r qs))
]

length-with_last : (r : Rule) (rs : List Rule) → length (with_last r rs) ≤ suc (length rs)
length-with_last r rs = elim (Bool-cases (has_rule r rs)) [
  | inl h ↦ rw h (omega arith)
  | inr h ↦ rw h (omega (arith, length-append rs (r ∷ [])))
]

length-with_first : (r : Rule) (rs : List Rule) → length (with_first r rs) ≤ suc (length rs)
length-with_first r rs = elim (Bool-cases (has_rule r rs)) [
  | inl h ↦ rw h (omega arith)
  | inr h ↦ rw h (omega arith)
]

length-without_first-le : (r : Rule) (rs : List Rule) → length (without_first r rs) ≤ length rs
length-without_first-le r [] = omega arith
length-without_first-le r (q ∷ qs) = elim (Bool-cases (same_rule r q)) [
  | inl h ↦ rw h (omega arith)
  | inr h ↦ rw h (omega (arith, length-without_first-le r qs))
]

-- A choice is as short as both of its branches.
length-if :
    (b : Bool) (xs ys : List Rule) (n : ℕ)
    → length xs ≤ n
    → length ys ≤ n
    → length (if b then xs else ys) ≤ n
length-if true xs ys n h k = h
length-if false xs ys n h k = k

-- A line adds at most one rule to a chain.
pub length-line_after :
    (s : Step) (c : Chain) (rs : List Rule) → length (line_after s c rs) ≤ suc (length rs)
length-line_after (runs (append d r)) c rs =
    length-if (same_chain c d) (rs ++ (r ∷ [])) rs _ (omega (arith, length-append rs (r ∷ [])))
      (omega arith)
length-line_after (runs (insert d r)) c rs =
    length-if (same_chain c d) (r ∷ rs) rs _ (omega arith) (omega arith)
length-line_after (runs (delete d r)) c rs =
    length-if (same_chain c d) (without_first r rs) rs _
      (omega (arith, length-without_first-le r rs)) (omega arith)
length-line_after (runs (check d r)) c rs = omega arith
length-line_after (runs (flush d)) c rs =
    length-if (same_chain c d) [] rs _ (omega arith) (omega arith)
length-line_after (runs (set_policy d target)) c rs = omega arith
length-line_after (once d r) c rs =
    length-if (same_chain c d) (with_last r rs) rs _ (length-with_last r rs) (omega arith)
length-line_after (once_first d r) c rs =
    length-if (same_chain c d) (with_first r rs) rs _ (length-with_first r rs) (omega arith)
length-line_after (removes d r) c rs =
    length-if (same_chain c d) (without r rs) rs _ (omega (arith, length-without r rs))
      (omega arith)
length-line_after (calls args) c rs = omega arith
