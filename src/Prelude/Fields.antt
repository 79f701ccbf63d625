-- ===== src/Prelude/Fields.antt =====
-- strings.Split at a character and strings.Fields.
use Prim.Native.Nat.{ℕ}
use Prim.Native.Char.{Char, code}
use Prim.Native.String.{String}
use Prim.Native.String.append
use mathlib.Core.Path.{◌≡◌, refl, ap}
use mathlib.Core.Logic.{inl, inr}
use mathlib.Core.Bool.{Bool, true, false, not, ◌&&◌}
use mathlib.Core.List.{List, [], ◌∷◌}
use native.Mathlib.Omega.{arith}
use text.Mathlib.Text.{◌==◌}
use cluster_os.Prelude.Tests.{eqb, Bool-cases, if◌then◌else◌}
use cluster_os.Prelude.Errors.{after_text}
use cluster_os.Prelude.Lists.{filter}
use cluster_os.Prelude.Split.{is_space}

-- A character in front of the first part.
onto_first : Char → List String → List String
onto_first c [] = String.◌∷◌ c String.[] ∷ []
onto_first c (t ∷ ts) = String.◌∷◌ c t ∷ ts

-- The parts between the characters that pass a test.
split_where : (ℕ → Bool) → String → List String
unfolding onto_first
split_where p String.[] = "" ∷ []
split_where p (String.◌∷◌ c s) =
    let rest = split_where p s in if p (code c) then "" ∷ rest else onto_first c rest

not_empty : String → Bool
not_empty s = if s == "" then false else true

-- strings.Split(s, sep), for one character
unfoldable pub split_at : ℕ → String → List String
unfolding split_where
split_at sep s = split_where (eqb sep) s

-- strings.Fields(s)
unfoldable pub fields : String → List String
unfolding split_where not_empty
fields s = filter not_empty (split_where is_space s)

drop_quotes : String → String
drop_quotes String.[] = ""
drop_quotes (String.◌∷◌ c s) = if eqb (code c) 34 then drop_quotes s else String.◌∷◌ c s

-- A quotation mark that nothing follows goes away.
cons_unquoted : Bool → Char → String → String
cons_unquoted true c String.[] = ""
cons_unquoted _ c s = String.◌∷◌ c s

drop_last_quotes : String → String
unfolding cons_unquoted
drop_last_quotes String.[] = ""
drop_last_quotes (String.◌∷◌ c s) = cons_unquoted (eqb (code c) 34) c (drop_last_quotes s)

-- strings.Trim(s, `"`)
unfoldable pub trim_quotes : String → String
unfolding drop_quotes drop_last_quotes
trim_quotes s = drop_quotes (drop_last_quotes s)

-- strings.Join(lines, "\n")
unfoldable pub join_lines : List String → String
join_lines [] = ""
join_lines (s ∷ []) = s
join_lines (s ∷ t ∷ ts) = after_text s (after_text "\n" (join_lines (t ∷ ts)))

abbrev pub NoSep : ℕ → String → Type 0
NoSep sep String.[] = Unit
NoSep sep (String.◌∷◌ c s) = (eqb sep (code c) ≡ false) × NoSep sep s

-- Whether a text lacks the separator.
abbrev pub lacks : ℕ → String → Bool
lacks sep String.[] = true
lacks sep (String.◌∷◌ c s) = not (eqb sep (code c)) && lacks sep s

pub lacks-NoSep : (sep : ℕ) (s : String) → lacks sep s ≡ true → NoSep sep s
lacks-NoSep sep String.[] h = tt
lacks-NoSep sep (String.◌∷◌ c s) h = elim (Bool-cases (eqb sep (code c))) [
  | inl k ↦ ground (arith, h, k)
  | inr k ↦ (k, lacks-NoSep sep s (ground (arith, h, k)))
]

abbrev pub NoSeps : ℕ → List String → Type 0
NoSeps sep [] = Unit
NoSeps sep (s ∷ ss) = NoSep sep s × NoSeps sep ss

-- A text without the separator, the separator and more: the text is the first part.
pub split_at-append :
    (sep : ℕ) (c : Char) (s r : String)
    → eqb sep (code c) ≡ true
    → NoSep sep s
    → split_at sep (after_text s (String.◌∷◌ c r)) ≡ s ∷ split_at sep r
unfolding split_at split_where after_text
split_at-append sep c String.[] r k h = rw (append.nil (String.◌∷◌ c r)) (rw k refl)
split_at-append sep c (String.◌∷◌ d s) r k h =
    rw (append.cons d s (String.◌∷◌ c r)) (rw h.0 (rw (split_at-append sep c s r k h.1) refl))

pub split_at_self : (sep : ℕ) (s : String) → NoSep sep s → split_at sep s ≡ s ∷ []
unfolding split_at split_where
split_at_self sep String.[] h = refl
split_at_self sep (String.◌∷◌ c s) h = rw h.0 (rw (split_at_self sep s h.1) refl)

pub NoSep-append : (sep : ℕ) (s r : String) → NoSep sep s → NoSep sep r → NoSep sep (after_text s r)
unfolding after_text
NoSep-append sep String.[] r h k = rw (append.nil r) k
NoSep-append sep (String.◌∷◌ c s) r h k = rw (append.cons c s r) (h.0, NoSep-append sep s r h.1 k)

pub after_one : (c : Char) (r : String) → after_text (String.◌∷◌ c String.[]) r ≡ String.◌∷◌ c r
unfolding after_text
after_one c r = rw (append.cons c String.[] r, append.nil) refl

-- Splitting lines that were joined gives them back, if there is one and no line has a line break.
pub split_at-join_lines :
    (s : String) (ss : List String)
    → NoSeps 10 (s ∷ ss)
    → split_at 10 (join_lines (s ∷ ss)) ≡ s ∷ ss
unfolding join_lines
split_at-join_lines s [] h = split_at_self 10 s h.0
split_at-join_lines s (t ∷ ts) h = rw (after_one "\n" (join_lines (t ∷ ts))) (
    rw (split_at-append 10 "\n" s (join_lines (t ∷ ts)) refl h.0)
      (ap (λ l. s ∷ l) (split_at-join_lines t ts h.1)))

onto_first-NoSeps :
    (sep : ℕ) (c : Char) (ss : List String)
    → eqb sep (code c) ≡ false
    → NoSeps sep ss
    → NoSeps sep (onto_first c ss)
unfolding onto_first
onto_first-NoSeps sep c [] h k = ((h, tt), tt)
onto_first-NoSeps sep c (s ∷ ss) h k = ((h, k.0), k.1)

-- No part has the separator.
pub split_at-NoSeps : (sep : ℕ) (s : String) → NoSeps sep (split_at sep s)
unfolding split_at split_where
split_at-NoSeps sep String.[] = (tt, tt)
split_at-NoSeps sep (String.◌∷◌ c s) = elim (Bool-cases (eqb sep (code c))) [
  | inl h ↦ rw h (tt, split_at-NoSeps sep s)
  | inr h ↦ rw h (onto_first-NoSeps sep c (split_at sep s) h (split_at-NoSeps sep s))
]
