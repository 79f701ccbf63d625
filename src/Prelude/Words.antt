-- ===== src/Prelude/Words.antt =====
-- strings.HasPrefix, strings.Contains and the search for a separator.
use Prim.Native.Nat.{ℕ, zero, suc, ◌+◌, ◌-◌}
use Prim.Native.Char.{Char, code}
use Prim.Native.String.{String, [], ◌∷◌}
use Prim.Native.String.append
use mathlib.Core.Path.{◌≡◌, refl, ap, sym, ◌∙◌}
use mathlib.Core.Bool.{Bool, true, false, ◌&&◌, ◌||◌, false≢true}
use mathlib.Core.Option.{Option, none, some}
use cluster_os.Prelude.Errors.{after_text}
use cluster_os.Prelude.Tests.{eqb, ltb, if◌then◌else◌}

-- strings.HasPrefix(s, prefix)
unfoldable pub has_prefix : String → String → Bool
has_prefix s [] = true
has_prefix [] (p ∷ ps) = false
has_prefix (c ∷ s) (p ∷ ps) = eqb (code c) (code p) && has_prefix s ps

-- strings.Contains(s, sub)
unfoldable pub contains : String → String → Bool
unfolding has_prefix
contains [] sub = has_prefix [] sub
contains (c ∷ s) sub = has_prefix (c ∷ s) sub || contains s sub

chars : String → ℕ
chars [] = 0
chars (c ∷ s) = suc (chars s)

-- What is before the separator is put in front of.
in_front : String → Option (String × String) → Option (String × String)
in_front c none = none
in_front String.[] (some (before, rest)) = some (before, rest)
in_front (String.◌∷◌ c s) (some (before, rest)) = some (String.◌∷◌ c before, rest)

-- The texts before and after the first character with this code, if there is one: strings.Index and the two
-- slices, or strings.SplitN(s, sep, 2) with two parts.
unfoldable pub cut : ℕ → String → Option (String × String)
unfolding in_front
cut sep [] = none
cut sep (c ∷ s) =
    let rest = cut sep s in
    if eqb (code c) sep then some ("", s) else in_front (String.◌∷◌ c String.[]) rest

-- The bytes of a character in UTF-8.
utf8_width : ℕ → ℕ
utf8_width c = if ltb c 0x80 then 1 else if ltb c 0x800 then 2 else if ltb c 0x10000 then 3 else 4

-- len(s)
unfoldable pub byte_length : String → ℕ
unfolding utf8_width
byte_length [] = 0
byte_length (c ∷ s) = utf8_width (code c) + byte_length s

-- Whether a text is at least as long as another.
abbrev pub covers : String → String → Bool
covers s [] = true
covers [] (p ∷ ps) = false
covers (c ∷ s) (p ∷ ps) = covers s ps

start_empty : (s : String) → has_prefix s [] ≡ true
unfolding has_prefix
start_empty [] = refl
start_empty (c ∷ s) = refl

-- What follows a text that is long enough does not change whether it has a prefix.
pub has_prefix-after_text :
    (t s p : String) → covers t p ≡ true → has_prefix (after_text t s) p ≡ has_prefix t p
unfolding has_prefix after_text
has_prefix-after_text t s [] h = start_empty (after_text t s) ∙ sym (start_empty t)
has_prefix-after_text [] s (p ∷ ps) h = absurd (false≢true h)
has_prefix-after_text (c ∷ t) s (p ∷ ps) h =
    rw (append.cons c t s) (ap (λ b. eqb (code c) (code p) && b) (has_prefix-after_text t s ps h))

replace_from : ℕ → String → String → String → String
unfolding chars
replace_from skip old new [] = []
replace_from (suc skip) old new (c ∷ s) = replace_from skip old new s
replace_from zero old new (c ∷ s) =
    let kept = replace_from 0 old new s in
    let replaced = replace_from (chars old - 1) old new s in
    if has_prefix (c ∷ s) old then after_text new replaced else c ∷ kept

-- strings.ReplaceAll(s, old, new), for an old text that is not empty
unfoldable pub replace_all : String → String → String → String
unfolding replace_from chars
replace_all old new s = replace_from 0 old new s

-- No character of a text has this code.
abbrev pub IsUncut : ℕ → String → Type 0
IsUncut sep [] = Unit
IsUncut sep (c ∷ s) = (eqb (code c) sep ≡ false) × IsUncut sep s

-- A text without the character, the character and more.
pub cut-append :
    (sep : ℕ) (c : Char) (s r : String)
    → eqb (code c) sep ≡ true
    → IsUncut sep s
    → cut sep (after_text s (c ∷ r)) ≡ some (s, r)
unfolding cut in_front after_text
cut-append sep c [] r k h = rw (append.nil (c ∷ r)) (rw k refl)
cut-append sep c (d ∷ s) r k h =
    rw (append.cons d s (c ∷ r)) (rw h.0 (rw (cut-append sep c s r k h.1) refl))
