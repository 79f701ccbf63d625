-- ===== src/Prelude/Texts.antt =====
-- The order of texts (Go's `<` on strings), with the laws of a strict total order.
use Prim.Native.String.{String, [], ◌∷◌, compare}
use Prim.Native.String.compare
use mathlib.Core.Path.{◌≡◌}
use mathlib.Core.Bool.{Bool, true, false}
use native.Mathlib.Omega.{arith}
use text.Mathlib.Text.{is_lt}
use text.Mathlib.TextEquality.{codes_equal}
use text.Mathlib.TextPositions.{compare_refl}

-- `s < t`: texts compare by their UTF-8 bytes, which is the order of their code points.
abbrev pub str_ltb : String → String → Bool
str_ltb s t = is_lt (compare s t)

pub str_ltb_irrefl : (s : String) → str_ltb s s ≡ false
str_ltb_irrefl s = rw compare_refl

pub str_ltb_trans : (s t u : String) → str_ltb s t ≡ true → str_ltb t u ≡ true → str_ltb s u ≡ true
str_ltb_trans [] [] u h k = k
str_ltb_trans [] (d ∷ t) [] h k = ground (arith, compare.cons-nil d t)
str_ltb_trans [] (d ∷ t) (e ∷ u) h k = rw compare.nil-cons
str_ltb_trans (c ∷ s) [] u h k = ground (arith, compare.cons-nil c s)
str_ltb_trans (c ∷ s) (d ∷ t) [] h k = ground (arith, compare.cons-nil d t)
str_ltb_trans (c ∷ s) (d ∷ t) (e ∷ u) h k = ground (
  arith,
  compare.cons-cons c d s t,
  compare.cons-cons d e t u,
  compare.cons-cons c e s u,
  str_ltb_trans s t u,
)

pub str_ltb_total : (s t : String) → str_ltb s t ≡ false → str_ltb t s ≡ false → s ≡ t
str_ltb_total [] [] h k = λ _. []
str_ltb_total [] (d ∷ t) h k = ground (arith, compare.nil-cons d t)
str_ltb_total (c ∷ s) [] h k = ground (arith, compare.nil-cons c s)
str_ltb_total (c ∷ s) (d ∷ t) h k = ground (
  arith,
  compare.cons-cons c d s t,
  compare.cons-cons d c t s,
  codes_equal c d,
  str_ltb_total s t,
)
