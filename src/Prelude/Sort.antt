-- ===== src/Prelude/Sort.antt =====
-- Go's `sort.Strings` and `sort.Slice` by a text key, as an insertion sort, and what their users need:
-- the members stay, and the first of the result is the least.
use Prim.Native.String.{String}
use Prim.Native.Nat.{suc}
use mathlib.Core.Path.{◌≡◌, refl, ap}
use mathlib.Core.Bool.{true, false, ◌||◌}
use mathlib.Core.Logic.{inl, inr}
use mathlib.Core.List.{List, [], ◌∷◌, map}
use native.Mathlib.Omega.{arith}
use text.Mathlib.Text.{◌==◌}
use text.Mathlib.TextEquality.{eq_iff}
use cluster_os.Prelude.Tests.{if◌then◌else◌, Bool-cases}
use cluster_os.Prelude.Lists.{elem, length}
use cluster_os.Prelude.Texts.{str_ltb, str_ltb_irrefl, str_ltb_trans, str_ltb_total}

module _ {ℓ} {A : Type ℓ} (key : A → String) where
  insert_by : A → List A → List A
  insert_by x [] = x ∷ []
  insert_by x (y ∷ ys) = if str_ltb (key y) (key x) then y ∷ insert_by x ys else x ∷ y ∷ ys

  -- sort.Slice(xs, func(i, j int) bool { return key(xs[i]) < key(xs[j]) })
  unfoldable pub sort_by : List A → List A
  unfolding insert_by
  sort_by [] = []
  sort_by (x ∷ xs) = insert_by x (sort_by xs)

insert_string : String → List String → List String
insert_string s [] = s ∷ []
insert_string s (t ∷ ts) = if str_ltb t s then t ∷ insert_string s ts else s ∷ t ∷ ts

-- sort.Strings
unfoldable pub sort_strings : List String → List String
unfolding insert_string
sort_strings [] = []
sort_strings (s ∷ ts) = insert_string s (sort_strings ts)

map-insert_by {ℓ} :
    {A : Type ℓ} (key : A → String) (x : A) (xs : List A)
    → map key (insert_by key x xs) ≡ insert_string (key x) (map key xs)
unfolding insert_by insert_string
map-insert_by key x [] = refl
map-insert_by key x (y ∷ ys) = elim (Bool-cases (str_ltb (key y) (key x))) [
  | inl e ↦ rw e (ap (λ t. key y ∷ t) (map-insert_by key x ys))
  | inr e ↦ rw e
]

-- The keys of the sorted list are the sorted keys.
pub map-sort_by {ℓ} :
    {A : Type ℓ} (key : A → String) (xs : List A)
    → map key (sort_by key xs) ≡ sort_strings (map key xs)
unfolding sort_by sort_strings
map-sort_by key [] = refl
map-sort_by key (x ∷ xs) = rw (map-insert_by key x (sort_by key xs), map-sort_by key xs)

elem-insert_string :
    (s t : String) (ts : List String) → elem s (insert_string t ts) ≡ (t == s || elem s ts)
unfolding elem insert_string
elem-insert_string s t [] = refl
elem-insert_string s t (u ∷ us) = ground (arith, elem-insert_string s t us)

pub elem-sort_strings : (s : String) (ts : List String) → elem s (sort_strings ts) ≡ elem s ts
unfolding elem sort_strings
elem-sort_strings s [] = refl
elem-sort_strings s (t ∷ ts) =
    ground (arith, elem-insert_string s t (sort_strings ts), elem-sort_strings s ts)

length-insert_string :
    (s : String) (ts : List String) → length (insert_string s ts) ≡ suc (length ts)
unfolding insert_string
length-insert_string s [] = refl
length-insert_string s (t ∷ ts) = ground (arith, length-insert_string s ts)

pub length-sort_strings : (ts : List String) → length (sort_strings ts) ≡ length ts
unfolding sort_strings
length-sort_strings [] = refl
length-sort_strings (t ∷ ts) =
    omega (arith, length-insert_string t (sort_strings ts), length-sort_strings ts)

-- No member of the list is below `s`.
abbrev pub NoneBelow : String → List String → Type 0
NoneBelow s [] = Unit
NoneBelow s (t ∷ ts) = (str_ltb t s ≡ false) × NoneBelow s ts

-- Each member is at most the later ones.
abbrev pub IsSorted : List String → Type 0
IsSorted [] = Unit
IsSorted (s ∷ ts) = NoneBelow s ts × IsSorted ts

pub not-str_ltb_of-elem :
    (s t : String) (ts : List String) → NoneBelow s ts → elem t ts ≡ true → str_ltb t s ≡ false
unfolding elem
not-str_ltb_of-elem s t [] h e = absurd (ground arith)
not-str_ltb_of-elem s t (u ∷ us) h e = ground (arith, eq_iff u t, not-str_ltb_of-elem s t us h.1)

-- Below a member that is not below `s`, nothing is below `s`.
not-str_ltb_trans :
    (s t u : String) → str_ltb t s ≡ false → str_ltb u t ≡ false → str_ltb u s ≡ false
not-str_ltb_trans s t u h k =
    ground (arith, str_ltb_total t s, str_ltb_trans u s t, str_ltb_irrefl u)

NoneBelow-mono :
    (s t : String) (ts : List String) → str_ltb t s ≡ false → NoneBelow t ts → NoneBelow s ts
NoneBelow-mono s t [] h k = k
NoneBelow-mono s t (u ∷ us) h k = (not-str_ltb_trans s t u h k.0, NoneBelow-mono s t us h k.1)

NoneBelow-insert_string :
    (s t : String) (ts : List String)
    → str_ltb t s ≡ false
    → NoneBelow s ts
    → NoneBelow s (insert_string t ts)
unfolding insert_string
NoneBelow-insert_string s t [] h k = (h, k)
NoneBelow-insert_string s t (u ∷ us) h k = ground (arith, NoneBelow-insert_string s t us h k.1)

insert_string-IsSorted :
    (s : String) (ts : List String) → IsSorted ts → IsSorted (insert_string s ts)
unfolding insert_string
insert_string-IsSorted s [] h = ground arith
insert_string-IsSorted s (t ∷ ts) h = elim (Bool-cases (str_ltb t s)) [
  | inl e ↦ rw e (
    NoneBelow-insert_string t s ts (ground (arith, str_ltb_trans t s t, str_ltb_irrefl t)) h.0,
    insert_string-IsSorted s ts h.1,
  )
  | inr e ↦ rw e ((e, NoneBelow-mono s t ts e h.0), h)
]

pub sort_strings-IsSorted : (ts : List String) → IsSorted (sort_strings ts)
unfolding sort_strings
sort_strings-IsSorted [] = tt
sort_strings-IsSorted (t ∷ ts) =
    insert_string-IsSorted t (sort_strings ts) (sort_strings-IsSorted ts)
