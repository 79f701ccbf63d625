-- ===== src/Prelude/Maps.antt =====
-- A Go `map[string]V` as an association list. A range over a map has an unspecified order in Go: the
-- order of the list stands for the order that a range happens to take.
use Prim.Native.String.{String}
use mathlib.Core.Path.{◌≡◌, refl, subst}
use mathlib.Core.Logic.{inl, inr}
use mathlib.Core.Bool.{false, ◌&&◌, ◌||◌, not}
use mathlib.Core.Option.{Option, none, some}
use mathlib.Core.List.{List, [], ◌∷◌}
use native.Mathlib.Omega.{arith}
use text.Mathlib.Text.{◌==◌}
use text.Mathlib.TextEquality.{eq_iff}
use cluster_os.Prelude.Tests.{if◌then◌else◌, is_some, Bool-cases}
use cluster_os.Prelude.Lists.{elem}

abbrev pub Map {ℓ} : Type ℓ → Type ℓ
Map V = List (String × V)

abbrev pub keys {ℓ} : {V : Type ℓ} → Map V → List String
keys [] = []
keys ((k, v) ∷ m) = k ∷ keys m

-- A Go map has each key once.
abbrev pub KeysOnce {ℓ} : {V : Type ℓ} → Map V → Type 0
KeysOnce [] = Unit
KeysOnce ((k, v) ∷ m) = (elem k (keys m) ≡ false) × KeysOnce m

module _ {ℓ} {V : Type ℓ} where
  -- v, ok := table[key]
  unfoldable pub lookup : String → Map V → Option V
  lookup key [] = none
  lookup key ((own, held) ∷ others) =
      let later = lookup key others in if own == key then some held else later

  -- table[key] = value
  unfoldable pub insert : String → V → Map V → Map V
  insert key value [] = (key, value) ∷ []
  insert key value ((own, held) ∷ others) =
      let later = insert key value others in
      if own == key then (key, value) ∷ others else (own, held) ∷ later

  -- delete(table, key)
  unfoldable pub delete : String → Map V → Map V
  delete key [] = []
  delete key ((own, held) ∷ others) =
      let later = delete key others in if own == key then later else (own, held) ∷ later

  pub lookup-insert :
      (key wanted : String) (value : V) (table : Map V)
      → lookup wanted (insert key value table)
        ≡ (if key == wanted then some value else lookup wanted table)
  unfolding insert lookup
  lookup-insert key wanted value [] = refl
  lookup-insert key wanted value ((own, held) ∷ others) = ground (
    arith,
    lookup-insert key wanted value others,
    eq_iff own wanted,
    eq_iff own key,
    eq_iff key wanted,
  )

  pub lookup-delete :
      (key wanted : String) (table : Map V)
      → lookup wanted (delete key table) ≡ (if key == wanted then none else lookup wanted table)
  unfolding delete lookup
  lookup-delete key wanted [] = ground arith
  lookup-delete key wanted ((own, held) ∷ others) =
      ground (
        arith,
        lookup-delete key wanted others,
        eq_iff own wanted,
        eq_iff own key,
        eq_iff key wanted,
      )

  -- The keys of a map are those that a lookup finds.
  pub elem-keys : (k : String) (m : Map V) → elem k (keys m) ≡ is_some (lookup k m)
  unfolding elem lookup
  elem-keys k [] = refl
  elem-keys k ((j, v) ∷ m) = ground (arith, elem-keys k m)

  pub elem-keys-insert :
      (k j : String) (v : V) (m : Map V)
      → elem j (keys (insert k v m)) ≡ (k == j || elem j (keys m))
  unfolding elem insert
  elem-keys-insert k j v [] = refl
  elem-keys-insert k j v ((i, w) ∷ m) =
      ground (arith, elem-keys-insert k j v m, eq_iff i j, eq_iff i k, eq_iff k j)

  pub elem-keys-delete :
      (k j : String) (m : Map V) → elem j (keys (delete k m)) ≡ (not (k == j) && elem j (keys m))
  unfolding elem delete
  elem-keys-delete k j [] = ground arith
  elem-keys-delete k j ((i, w) ∷ m) =
      ground (arith, elem-keys-delete k j m, eq_iff i j, eq_iff i k, eq_iff k j)

  pub KeysOnce-insert : (k : String) (v : V) (m : Map V) → KeysOnce m → KeysOnce (insert k v m)
  unfolding insert elem
  KeysOnce-insert k v [] h = ground arith
  KeysOnce-insert k v ((i, w) ∷ m) h =
      ground (arith, eq_iff i k, eq_iff k i, elem-keys-insert k i v m, KeysOnce-insert k v m h.1)

  pub KeysOnce-delete : (k : String) (m : Map V) → KeysOnce m → KeysOnce (delete k m)
  unfolding delete
  KeysOnce-delete k [] h = h
  KeysOnce-delete k ((i, w) ∷ m) h = ground (arith, elem-keys-delete k i m, KeysOnce-delete k m h.1)

-- The entries of `rest` are found in `m`.
abbrev pub Within {ℓ} : {V : Type ℓ} → Map V → Map V → Type ℓ
Within m [] = Unit
Within m ((k, v) ∷ rest) = (lookup k m ≡ some v) × Within m rest

Within-cons {ℓ} :
    {V : Type ℓ} (k : String) (v : V) (m rest : Map V)
    → elem k (keys rest) ≡ false
    → Within m rest
    → Within ((k, v) ∷ m) rest
unfolding lookup elem
Within-cons k v m [] h w = tt
Within-cons k v m ((j, u) ∷ rest) h w =
    (ground (arith, eq_iff k j, eq_iff j k, w.0), Within-cons k v m rest (ground arith) w.1)

-- In a map that has each key once, a lookup finds every entry.
pub Within-self {ℓ} : {V : Type ℓ} (m : Map V) → KeysOnce m → Within m m
unfolding lookup
Within-self [] h = tt
Within-self ((k, v) ∷ m) h =
    (ground (arith, eq_iff k k), Within-cons k v m m h.0 (Within-self m h.1))

-- What holds of every entry and of a new one holds of every entry with the new one put in.
pub every-insert {ℓ κ} :
    {V : Type ℓ} (P : String → V → Type κ) (k : String) (v : V) (m : Map V)
    → P k v
    → ((j : String) (w : V) → lookup j m ≡ some w → P j w)
    → (j : String) (w : V) → lookup j (insert k v m) ≡ some w
    → P j w
every-insert P k v m new old j w h = elim (Bool-cases (k == j)) [
  | inl e ↦
      let same : v ≡ w = cc (h, lookup-insert k j v m, e) in
      subst (λ i. P i w) ((eq_iff k j).0 e) (subst (λ u. P k u) same new)
  | inr e ↦ old j w (cc (h, lookup-insert k j v m, e))
]

pub every-delete {ℓ κ} :
    {V : Type ℓ} (P : String → V → Type κ) (k : String) (m : Map V)
    → ((j : String) (w : V) → lookup j m ≡ some w → P j w)
    → (j : String) (w : V) → lookup j (delete k m) ≡ some w
    → P j w
every-delete P k m old j w h = elim (Bool-cases (k == j)) [
  | inl e ↦ absurd (cc (h, lookup-delete k j m, e))
  | inr e ↦ old j w (cc (h, lookup-delete k j m, e))
]

-- The laws of lookup, for `simp`.
pub ruleset map_laws = (lookup-insert, lookup-delete)
