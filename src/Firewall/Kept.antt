-- ===== src/Firewall/Kept.antt =====
-- Rules that are added once, and rules that are removed: what is there afterwards, for
-- node/internal/daemon/daemon.go and node/internal/services/kubernetes/k3s/server.go.
use cluster_os.Prelude.{
  String, ◌≡◌, refl, sym, ap, ◌∙◌, true, false, ◌&&◌, ◌||◌, not, List, [], ◌∷◌, ◌++◌, inl, inr,
  Bool-cases, arith, ◌==◌, eq_refl, eq_iff,
}
use cluster_os.Firewall.Rules.{Rule, same_texts, same_rule, has_rule}
use cluster_os.Firewall.Lines.{without, with_last, with_first}

same_texts_self : (ss : List String) → same_texts ss ss ≡ true
same_texts_self [] = refl
same_texts_self (s ∷ ss) = rw (eq_refl s) (same_texts_self ss)

pub same_texts-eq : (ss ts : List String) → same_texts ss ts ≡ true → ss ≡ ts
same_texts-eq [] [] h = refl
same_texts-eq [] (t ∷ ts) h = absurd (ground (arith, h))
same_texts-eq (s ∷ ss) [] h = absurd (ground (arith, h))
same_texts-eq (s ∷ ss) (t ∷ ts) h =
    let first : (s == t) ≡ true = ground (arith, h) in
    let rest : same_texts ss ts ≡ true = ground (arith, h) in
    rw ((eq_iff s t).0 first, same_texts-eq ss ts rest) refl

same_rule_self : (r : Rule) → same_rule r r ≡ true
same_rule_self r = rw (same_texts_self r.matches) (same_texts_self r.jump)

same_rule-eq : (p r : Rule) → same_rule p r ≡ true → p ≡ r
same_rule-eq p r h =
    let one = same_texts-eq p.matches r.matches (ground (arith, h)) in
    let two = same_texts-eq p.jump r.jump (ground (arith, h)) in
    λ i. record { matches = one i; jump = two i }

has_rule-append :
    (r : Rule) (xs ys : List Rule) → has_rule r (xs ++ ys) ≡ (has_rule r xs || has_rule r ys)
has_rule-append r [] ys = refl
has_rule-append r (x ∷ xs) ys = ground (arith, has_rule-append r xs ys)

-- Where a rule is there already, adding it changes nothing.
already :
    (p r : Rule) (rs : List Rule)
    → has_rule r rs ≡ true
    → has_rule p rs ≡ (has_rule p rs || same_rule p r)
already p r rs h = elim (Bool-cases (same_rule p r)) [
  | inl k ↦ rw (k, same_rule-eq p r k, h) refl
  | inr k ↦ ground (arith, k)
]

pub has_rule-with_last :
    (p r : Rule) (rs : List Rule) → has_rule p (with_last r rs) ≡ (has_rule p rs || same_rule p r)
has_rule-with_last p r rs = elim (Bool-cases (has_rule r rs)) [
  | inl h ↦ rw h (already p r rs h)
  | inr h ↦ rw h (ground (arith, has_rule-append p rs (r ∷ [])))
]

pub has_rule-with_first :
    (p r : Rule) (rs : List Rule) → has_rule p (with_first r rs) ≡ (has_rule p rs || same_rule p r)
has_rule-with_first p r rs = elim (Bool-cases (has_rule r rs)) [
  | inl h ↦ rw h (already p r rs h)
  | inr h ↦ rw h (ground arith)
]

pub has_rule-without :
    (p r : Rule) (rs : List Rule)
    → has_rule p (without r rs) ≡ (has_rule p rs && not (same_rule p r))
has_rule-without p r [] = refl
has_rule-without p r (q ∷ qs) = elim (Bool-cases (same_rule r q)) [
  | inl h ↦
      let copy : same_rule p q ≡ same_rule p r = ap (same_rule p) (sym (same_rule-eq r q h)) in
      rw h (ground (arith, copy, has_rule-without p r qs))
  | inr h ↦ elim (Bool-cases (same_rule p r)) [
    | inl k ↦
        let other : same_rule p q ≡ false = rw (same_rule-eq p r k) h in
        rw h (ground (arith, other, k, has_rule-without p r qs))
    | inr k ↦ rw h (ground (arith, k, has_rule-without p r qs))
  ]
]

-- Rules that are added at the end, each if it is missing.
abbrev pub with_all : List Rule → List Rule → List Rule
with_all [] rs = rs
with_all (q ∷ qs) rs = with_all qs (with_last q rs)

pub has_rule-with_all :
    (p : Rule) (qs rs : List Rule) → has_rule p (with_all qs rs) ≡ (has_rule p rs || has_rule p qs)
has_rule-with_all p [] rs = ground arith
has_rule-with_all p (q ∷ qs) rs =
    has_rule-with_all p qs (with_last q rs) ∙ ground (arith, has_rule-with_last p q rs)

abbrev pub AllIn : List Rule → List Rule → Type 0
AllIn [] rs = Unit
AllIn (q ∷ qs) rs = (has_rule q rs ≡ true) × AllIn qs rs

pub with_all-AllIn : (qs rs : List Rule) → AllIn qs (with_all qs rs)
with_all-AllIn [] rs = tt
with_all-AllIn (q ∷ qs) rs = (
  ground
      (arith, has_rule-with_all q qs (with_last q rs), has_rule-with_last q q rs, same_rule_self q),
  with_all-AllIn qs (with_last q rs),
)

pub with_all_fixed : (qs rs : List Rule) → AllIn qs rs → with_all qs rs ≡ rs
with_all_fixed [] rs h = refl
with_all_fixed (q ∷ qs) rs h = rw h.0 (with_all_fixed qs rs h.1)
