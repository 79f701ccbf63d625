-- ===== src/Identity/Stored.antt =====
-- What is saved is what is loaded: node/internal/identity/persistence.go.
use cluster_os.Prelude.{
  String, ◌≡◌, refl, sym, ap, subst, ◌∙◌, Bool, true, false, Option, none, some, ◌⊎◌, inl, inr,
  is_some, eq_refl, if-both, Option-cases,
}
use mathlib.Core.Option.{some-ne-none}
use mathlib.Core.Sum.{inl-ne-inr, inr-injective}
use cluster_os.Prelude.Maps.{lookup, delete, lookup-insert}
use cluster_os.Prelude.Errors.{after_text, caused}
use cluster_os.Auth.{Bytes}
use cluster_os.Identity.{
  Identity, Codecs, Faults, Files, Loaded, generate, verify, path_or_default, moved, written,
  prepared, checked, save, accepted, decoded, found, load, exists_at, existing, saved, fresh,
  load_or_generate,
}

-- The file at the path decodes to this identity, which verifies.
abbrev pub IsStored : Codecs → String → Files → Identity → Type 0
IsStored c path files i =
    ((s : String) × (lookup (path_or_default path) files ≡ some s) × (c.unmarshal s ≡ inr i))
    × (verify c i ≡ none)

moved-lookup :
    (o : Option String) (path contents : String) (files : Files)
    → (moved o path contents files).1 ≡ none
    → lookup path (moved o path contents files).0 ≡ some contents
unfolding moved
moved-lookup (some e) path contents files h = absurd (some-ne-none _ h)
moved-lookup none path contents files h =
    rw (lookup-insert path path contents (delete (after_text path ".tmp") files), eq_refl path) refl

written-lookup :
    (o : Option (String × String)) (w : Faults) (path contents : String) (files : Files)
    → (written o w path contents files).1 ≡ none
    → lookup path (written o w path contents files).0 ≡ some contents
unfolding written
written-lookup (some (e, left)) w path contents files h = absurd (some-ne-none _ h)
written-lookup none w path contents files h = moved-lookup w.rename_error path contents _ h

prepared-lookup :
    (o : Option String) (c : Codecs) (w : Faults) (path : String) (i : Identity) (files : Files)
    → (prepared o c w path i files).1 ≡ none
    → lookup path (prepared o c w path i files).0 ≡ some (c.marshal i)
unfolding prepared
prepared-lookup (some e) c w path i files h = absurd (some-ne-none _ h)
prepared-lookup none c w path i files h = written-lookup w.write_error w path (c.marshal i) files h

checked-lookup :
    (o : Option String) (c : Codecs) (w : Faults) (path : String) (i : Identity) (files : Files)
    → (checked o c w path i files).1 ≡ none
    → (lookup path (checked o c w path i files).0 ≡ some (c.marshal i)) × (o ≡ none)
unfolding checked
checked-lookup (some e) c w path i files h = absurd (some-ne-none _ h)
checked-lookup none c w path i files h = (prepared-lookup w.dir_error c w path i files h, refl)

save-IsStored :
    (c : Codecs) (w : Faults) (i : Identity) (path : String) (files : Files)
    → c.unmarshal (c.marshal i) ≡ inr i
    → (save c w i path files).1 ≡ none
    → IsStored c path (save c w i path files).0 i
unfolding save
save-IsStored c w i path files json h =
    let (there, fine) = checked-lookup (verify c i) c w (path_or_default path) i files h in
    ((c.marshal i, there, json), fine)

load-IsStored :
    (c : Codecs) (w : Faults) (i : Identity) (path : String) (files : Files)
    → w.read_error ≡ none
    → IsStored c path files i
    → load c w path files ≡ inr i
unfolding load found decoded accepted
load-IsStored c w i path files reads ((s, there, json), fine) =
    rw (there, found, reads, json, decoded, fine, accepted) refl

-- An identity that was saved without an error is the one that is loaded, where JSON decodes it from its own
-- text and the file can be read.
pub load-save :
    (c : Codecs) (w r : Faults) (i : Identity) (path : String) (files : Files)
    → c.unmarshal (c.marshal i) ≡ inr i
    → r.read_error ≡ none
    → (save c w i path files).1 ≡ none
    → load c r path (save c w i path files).0 ≡ inr i
load-save c w r i path files json reads h =
    load-IsStored c r i path _ reads (save-IsStored c w i path files json h)

accepted_only : (o : Option String) (i j : Identity) → accepted o i ≡ inr j → (o ≡ none) × (i ≡ j)
unfolding accepted
accepted_only (some e) i j h = absurd (inl-ne-inr h)
accepted_only none i j h = (refl, inr-injective _ _ h)

decoded_only :
    (c : Codecs) (o : String ⊎ Identity) (i : Identity)
    → decoded c o ≡ inr i
    → (o ≡ inr i) × (verify c i ≡ none)
unfolding decoded
decoded_only c (inl e) i h = absurd (inl-ne-inr h)
decoded_only c (inr j) i h =
    let (fine, same) = accepted_only (verify c j) j i h in
    (ap inr same, ap (verify c) (sym same) ∙ fine)

found_only :
    (c : Codecs) (w : Faults) (path : String) (o : Option String) (i : Identity)
    → found c w path o ≡ inr i
    → ((s : String) × (o ≡ some s) × (c.unmarshal s ≡ inr i)) × (verify c i ≡ none)
unfolding found
found_only c w path none i h = absurd (inl-ne-inr h)
found_only c w path (some s) i h = elim (Option-cases w.read_error) [
  | inr (e, failed) ↦ absurd (inl-ne-inr (subst (reads s) failed h))
  | inl fine ↦
      let (json, verified) = decoded_only c (c.unmarshal s) i (subst (reads s) fine h) in
      ((s, refl, json), verified)
]
  where
    reads : String → Option String → Type 0
    reads s o =
        (elim o [
          | some e ↦ inl (caused (after_text "failed to read identity file " path) e)
          | none ↦ decoded c (c.unmarshal s)
        ])
        ≡ inr i

-- What an outcome without an error says of the files.
IsSettled : Codecs → String → Identity → Files × Loaded → Type 0
IsSettled c path i (files, loaded) = (b : Bool) → loaded ≡ inr (i, b) → IsStored c path files i

existing-IsSettled :
    (c : Codecs) (w : Faults) (path : String) (files : Files) (i : Identity) (o : String ⊎ Identity)
    → load c w path files ≡ o
    → IsSettled c path i (files, existing o)
unfolding IsSettled existing load
existing-IsSettled c w path files i (inl e) same b h = absurd (inl-ne-inr h)
existing-IsSettled c w path files i (inr j) same b h =
    let equal = ap (λ x. x.0) (inr-injective (j, false) (i, b) h) in
    found_only c w (path_or_default path) _ i (same ∙ ap inr equal)

fresh-IsSettled :
    (c : Codecs) (w : Faults) (path : String) (files : Files) (i : Identity) (o : String ⊎ Identity)
    → ((j : Identity) → o ≡ inr j → c.unmarshal (c.marshal j) ≡ inr j)
    → IsSettled c path i (fresh c w path files o)
unfolding IsSettled fresh
fresh-IsSettled c w path files i (inl e) json b h = absurd (inl-ne-inr h)
fresh-IsSettled c w path files i (inr j) json b h =
    kept (save c w j path files) (save-IsStored c w j path files (json j refl)) h
  where
    kept :
        (r : Files × Option String)
        → (r.1 ≡ none → IsStored c path r.0 j)
        → (saved j r).1 ≡ inr (i, b)
        → IsStored c path (saved j r).0 i
    kept (after, some e) stored h = absurd (inl-ne-inr h)
    kept (after, none) stored h =
        subst (IsStored c path after) (ap (λ x. x.0) (inr-injective (j, true) (i, b) h))
          (stored refl)

-- A node keeps its identity: where LoadOrGenerate has given an identity, new or not, that identity verifies,
-- and LoadOrGenerate gives the same one again afterwards and says that it is not new, whatever keys would be
-- generated then. JSON decodes the identity that the first call would generate from its own text, and the file
-- can be read.
pub load_or_generate_again :
    (c : Codecs) (w r : Faults) (keys later : String ⊎ (Bytes × Bytes)) (path : String)
    (files : Files) (i : Identity) (is_new : Bool)
    → ((j : Identity) → generate c keys ≡ inr j → c.unmarshal (c.marshal j) ≡ inr j)
    → r.read_error ≡ none
    → (load_or_generate c w keys path files).1 ≡ inr (i, is_new)
    → let after = (load_or_generate c w keys path files).0 in
      (verify c i ≡ none) × (load_or_generate c r later path after ≡ (after, inr (i, false)))
unfolding load_or_generate exists_at existing IsSettled
load_or_generate_again c w r keys later path files i is_new json reads h =
    let settled : IsSettled c path i (load_or_generate c w keys path files) =
      if-both (IsSettled c path i) (exists_at path files) _ _
        (λ e. existing-IsSettled c w path files i (load c w path files) refl)
        (λ e. fresh-IsSettled c w path files i (generate c keys) json) in
    let stored = settled is_new h in
    let there : exists_at path (load_or_generate c w keys path files).0 ≡ true =
      ap is_some stored.0.1 in
    (
      stored.1,
      rw
          (
            there,
            load-IsStored c r i path (load_or_generate c w keys path files).0 reads stored,
            existing,
          )
          refl,
    )
