-- ===== src/Prelude/Split.antt =====
-- `strings.Join` and `strings.Split` at a comma, and `strings.TrimSpace`.
use Prim.Native.Nat.{ℕ}
use Prim.Native.Char.{Char, code}
use Prim.Native.String.{String, ◌++◌}
use Prim.Native.String.append
use mathlib.Core.Path.{◌≡◌, refl, ap}
use mathlib.Core.Bool.{Bool, true, false, ◌&&◌, ◌||◌}
use mathlib.Core.List.{List, [], ◌∷◌}
use cluster_os.Prelude.Tests.{eqb, leb, if◌then◌else◌}

-- strings.Join(ss, ",")
unfoldable pub join_comma : List String → String
join_comma [] = ""
join_comma (s ∷ []) = s
join_comma (s ∷ t ∷ ts) = s ++ ("," ++ join_comma (t ∷ ts))

push_char : Char → List String → List String
push_char c [] = String.◌∷◌ c String.[] ∷ []
push_char c (t ∷ ts) = String.◌∷◌ c t ∷ ts

-- strings.Split(s, ",")
unfoldable pub split_comma : String → List String
unfolding push_char
split_comma String.[] = "" ∷ []
split_comma (String.◌∷◌ c s) =
    let rest = split_comma s in if eqb (code c) 44 then "" ∷ rest else push_char c rest

pub is_space : ℕ → Bool
is_space c =
    (leb 9 c && leb c 13)
    || (eqb c 32
        || (eqb c 0x85
            || (eqb c 0xa0
                || (eqb c 0x1680
                    || ((leb 0x2000 c && leb c 0x200a)
                        || (eqb c 0x2028
                            || (eqb c 0x2029
                                || (eqb c 0x202f || (eqb c 0x205f || eqb c 0x3000)))))))))

trim_left : String → String
trim_left String.[] = ""
trim_left (String.◌∷◌ c s) = if is_space (code c) then trim_left s else String.◌∷◌ c s

cons_trimmed : Bool → Char → String → String
cons_trimmed true c String.[] = ""
cons_trimmed _ c s = String.◌∷◌ c s

trim_right : String → String
unfolding cons_trimmed is_space
trim_right String.[] = ""
trim_right (String.◌∷◌ c s) = cons_trimmed (is_space (code c)) c (trim_right s)

-- strings.TrimSpace
unfoldable pub trim_space : String → String
unfolding trim_left trim_right is_space
trim_space s = trim_left (trim_right s)

abbrev pub NoComma : String → Type 0
NoComma String.[] = Unit
NoComma (String.◌∷◌ c s) = (eqb (code c) 44 ≡ false) × NoComma s

split_comma-append : (s r : String) → NoComma s → split_comma (s ++ ("," ++ r)) ≡ s ∷ split_comma r
unfolding split_comma
split_comma-append String.[] r h = rw append.nil (rw (append.cons "," String.[] r, append.nil) refl)
split_comma-append (String.◌∷◌ c s) r h =
    rw (append.cons c s ("," ++ r)) (rw h.0 (rw (split_comma-append s r h.1) refl))

split_comma_self : (s : String) → NoComma s → split_comma s ≡ s ∷ []
unfolding split_comma
split_comma_self String.[] h = refl
split_comma_self (String.◌∷◌ c s) h = rw h.0 (rw (split_comma_self s h.1) refl)

abbrev pub NoCommas : List String → Type 0
NoCommas [] = Unit
NoCommas (s ∷ ss) = NoComma s × NoCommas ss

-- Splitting what was joined gives the list back, if it is not empty and no text has a comma.
pub split-join :
    (s : String) (ss : List String) → NoCommas (s ∷ ss) → split_comma (join_comma (s ∷ ss)) ≡ s ∷ ss
unfolding join_comma
split-join s [] h = split_comma_self s h.0
split-join s (t ∷ ts) h =
    rw (split_comma-append s (join_comma (t ∷ ts)) h.0) (ap (λ l. s ∷ l) (split-join t ts h.1))
