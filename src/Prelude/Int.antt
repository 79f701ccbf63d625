-- ===== src/Prelude/Int.antt =====
-- Go's `int` values as integers over the native numbers (`negsuc n` is -(n + 1)), and `strconv.Atoi`.
use Prim.Native.Nat.{ℕ, ◌+◌, ◌-◌, ◌*◌, ◌^◌}
use Prim.Native.Char.{code}
use Prim.Native.String.{String, [], ◌∷◌}
use mathlib.Core.Path.{◌≡◌, refl}
use mathlib.Core.Bool.{Bool, true, false, ◌&&◌}
use native.Mathlib.Omega.{arith}
use cluster_os.Prelude.Tests.{ltb, leb, if◌then◌else◌}

pub data ℤ : Type 0 where
  pos : ℕ → ℤ
  negsuc : ℕ → ℤ

abbrev pub ltb_ℤ : ℤ → ℤ → Bool
ltb_ℤ (pos a) (pos b) = ltb a b
ltb_ℤ (pos a) (negsuc b) = false
ltb_ℤ (negsuc a) (pos b) = true
ltb_ℤ (negsuc a) (negsuc b) = ltb b a

abbrev pub eqb_ℤ : ℤ → ℤ → Bool
eqb_ℤ a b = if ltb_ℤ a b then false else if ltb_ℤ b a then false else true

-- What ParseUint finds in a run of decimal digits.
pub data Digits : Type 0 where
  value : ℕ → Digits
  syntax : Digits
  range : Digits

digits : ℕ → String → Digits
digits n [] = value n
digits n (c ∷ s) =
    let rest = digits (n * 10 + (code c - 48)) s in
    if leb 48 (code c) && leb (code c) 57
    then (if leb (2 ^ 64) (n * 10 + (code c - 48)) then range else rest)
    else syntax

some_digits : String → Digits
unfolding digits
some_digits [] = syntax
some_digits (c ∷ s) = digits 0 (c ∷ s)

negative : ℕ → ℤ
negative n = if leb n 0 then pos 0 else negsuc (n - 1)

-- The value beside an error is 0 for a malformed number and the nearest bound out of range.
signed : Bool → Digits → ℤ × Bool
unfolding negative
signed minus syntax = (pos 0, false)
signed true range = (negsuc (2 ^ 63 - 1), false)
signed false range = (pos (2 ^ 63 - 1), false)
signed true (value n) = if leb n (2 ^ 63) then (negative n, true) else (negsuc (2 ^ 63 - 1), false)
signed false (value n) = if ltb n (2 ^ 63) then (pos n, true) else (pos (2 ^ 63 - 1), false)

-- n, err := strconv.Atoi(s): the number, and whether there was no error.
unfoldable pub atoi : String → ℤ × Bool
unfolding signed some_digits
atoi [] = (pos 0, false)
atoi (c ∷ s) =
    if leb 45 (code c) && leb (code c) 45
    then signed true (some_digits s)
    else if leb 43 (code c) && leb (code c) 43
    then signed false (some_digits s)
    else signed false (some_digits (c ∷ s))

pub ltb_ℤ_late : (a b c : ℤ) → ltb_ℤ a b ≡ true → ltb_ℤ c b ≡ false → ltb_ℤ c a ≡ false
ltb_ℤ_late (pos a) (pos b) (pos c) h k = ground arith
ltb_ℤ_late (pos a) (pos b) (negsuc c) h k = absurd (ground arith)
ltb_ℤ_late (pos a) (negsuc b) c h k = absurd (ground arith)
ltb_ℤ_late (negsuc a) (pos b) (pos c) h k = refl
ltb_ℤ_late (negsuc a) (pos b) (negsuc c) h k = absurd (ground arith)
ltb_ℤ_late (negsuc a) (negsuc b) (pos c) h k = refl
ltb_ℤ_late (negsuc a) (negsuc b) (negsuc c) h k = ground arith

pub ltb_ℤ_early : (a b c : ℤ) → ltb_ℤ a b ≡ false → ltb_ℤ c a ≡ false → ltb_ℤ c b ≡ false
ltb_ℤ_early (pos a) (pos b) (pos c) h k = ground arith
ltb_ℤ_early (pos a) (pos b) (negsuc c) h k = absurd (ground arith)
ltb_ℤ_early (pos a) (negsuc b) (pos c) h k = refl
ltb_ℤ_early (pos a) (negsuc b) (negsuc c) h k = absurd (ground arith)
ltb_ℤ_early (negsuc a) (pos b) c h k = absurd (ground arith)
ltb_ℤ_early (negsuc a) (negsuc b) (pos c) h k = refl
ltb_ℤ_early (negsuc a) (negsuc b) (negsuc c) h k = ground arith

pub ltb_ℤ_irrefl : (a : ℤ) → ltb_ℤ a a ≡ false
ltb_ℤ_irrefl (pos a) = ground arith
ltb_ℤ_irrefl (negsuc a) = ground arith
