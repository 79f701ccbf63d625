-- ===== src/Prelude/Tables.antt =====
-- What kubectl prints with -o jsonpath for a list: a line for each item, with its cells between tabs.
use Prim.Native.Nat.{ℕ}
use Prim.Native.String.{String}
use mathlib.Core.Path.{◌≡◌, refl, ap, sym, subst}
use mathlib.Core.Bool.{Bool, true, false, ◌&&◌, false≢true}
use mathlib.Core.List.{List, [], ◌∷◌}
use cluster_os.Prelude.Tests.{and_true}
use cluster_os.Prelude.Errors.{after_text}
use cluster_os.Prelude.Fields.{
  split_at, NoSep, lacks, lacks-NoSep, NoSeps, split_at-append, split_at_self, NoSep-append,
  after_one,
}

unfoldable pub row : List String → String
row [] = ""
row (s ∷ []) = s
row (s ∷ t ∷ ts) = after_text s (after_text "\t" (row (t ∷ ts)))

unfoldable pub table : List (List String) → String
unfolding row
table [] = ""
table (r ∷ rs) = after_text (row r) (after_text "\n" (table rs))

-- A line with cells, in none of which there is a tab or a line break.
abbrev pub IsPlain : List String → Type 0
IsPlain cells =
    (s : String) × (ss : List String) × (cells ≡ s ∷ ss) × NoSeps 9 cells × NoSeps 10 cells

abbrev pub ArePlain : List (List String) → Type 0
ArePlain [] = Unit
ArePlain (r ∷ rs) = IsPlain r × ArePlain rs

row-cells : (s : String) (ss : List String) → NoSeps 9 (s ∷ ss) → split_at 9 (row (s ∷ ss)) ≡ s ∷ ss
unfolding row
row-cells s [] h = split_at_self 9 s h.0
row-cells s (t ∷ ts) h =
    rw (after_one "\t" (row (t ∷ ts)))
      (rw (split_at-append 9 "\t" s (row (t ∷ ts)) refl h.0) (ap (λ l. s ∷ l) (row-cells t ts h.1)))

row-NoSep : (ss : List String) → NoSeps 10 ss → NoSep 10 (row ss)
unfolding row
row-NoSep [] h = tt
row-NoSep (s ∷ []) h = h.0
row-NoSep (s ∷ t ∷ ts) h =
    NoSep-append 10 s (after_text "\t" (row (t ∷ ts))) h.0
      (NoSep-append 10 "\t" (row (t ∷ ts)) (refl, tt) (row-NoSep (t ∷ ts) h.1))

-- The cells of the first line.
pub split_at-row : (r : List String) → IsPlain r → split_at 9 (row r) ≡ r
split_at-row r (s, ss, e, tabs, lines) =
    subst (λ (l : List String). split_at 9 (row l) ≡ l) (sym e)
      (row-cells s ss (subst (NoSeps 9) e tabs))

-- The first line of a table, and the lines of the rest.
pub split_at-table :
    (r : List String) (rs : List (List String))
    → IsPlain r
    → split_at 10 (table (r ∷ rs)) ≡ row r ∷ split_at 10 (table rs)
unfolding table
split_at-table r rs (s, ss, e, tabs, lines) =
    rw (after_one "\n" (table rs))
      (split_at-append 10 "\n" (row r) (table rs) refl (row-NoSep r lines))

abbrev all_lack : ℕ → List String → Bool
all_lack sep [] = true
all_lack sep (s ∷ ss) = lacks sep s && all_lack sep ss

all_lack-NoSeps : (sep : ℕ) (ss : List String) → all_lack sep ss ≡ true → NoSeps sep ss
all_lack-NoSeps sep [] h = tt
all_lack-NoSeps sep (s ∷ ss) h =
    let (this, rest) = and_true (lacks sep s) (all_lack sep ss) h in
    (lacks-NoSep sep s this, all_lack-NoSeps sep ss rest)

-- Whether every line has cells, without tabs and line breaks.
abbrev pub are_plain : List (List String) → Bool
are_plain [] = true
are_plain ([] ∷ rs) = false
are_plain ((s ∷ ss) ∷ rs) = (all_lack 9 (s ∷ ss) && all_lack 10 (s ∷ ss)) && are_plain rs

pub are_plain-ArePlain : (rs : List (List String)) → are_plain rs ≡ true → ArePlain rs
are_plain-ArePlain [] h = tt
are_plain-ArePlain ([] ∷ rs) h = absurd (false≢true h)
are_plain-ArePlain ((s ∷ ss) ∷ rs) h =
    let cells = s ∷ ss in
    let (this, rest) = and_true (all_lack 9 cells && all_lack 10 cells) (are_plain rs) h in
    let (tabs, lines) = and_true (all_lack 9 cells) (all_lack 10 cells) this in
    (
      (s, ss, refl, all_lack-NoSeps 9 cells tabs, all_lack-NoSeps 10 cells lines),
      are_plain-ArePlain rs rest,
    )
