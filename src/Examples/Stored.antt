-- ===== src/Examples/Stored.antt =====
-- A node that finds no identity and makes one.
use cluster_os.Prelude.{
  ℕ, zero, suc, String, ◌≡◌, refl, Bool, true, false, Option, none, some, List, [], ◌∷◌, inl, inr,
  ap, sym, ◌∙◌,
}
use mathlib.Core.Sum.{inr-injective}
use cluster_os.Auth.{Bytes}
use cluster_os.Identity.{Identity, Codecs, Faults, Files, generate, verify, load_or_generate}
use cluster_os.Identity.Stored.{load_or_generate_again}

abbrev zeros : ℕ → Bytes
zeros zero = []
zeros (suc n) = 0 ∷ zeros n

abbrev made : Identity
made = record { private_key = zeros 64; public_key = zeros 32; node_id = "id" }

abbrev codecs : Codecs
codecs = record {
  public_of = λ key. zeros 32;
  base58_encode = λ key. "id";
  marshal = λ i. "{}";
  unmarshal = λ s. inr made;
}

abbrev sound : Faults
sound = record { dir_error = none; write_error = none; rename_error = none; read_error = none }

load_or_generate_again_example :
    let after = (load_or_generate codecs sound (inr (zeros 32, zeros 64)) "" []).0 in
    (verify codecs made ≡ none)
    × (load_or_generate codecs sound (inl "no entropy") "" after ≡ (after, inr (made, false)))
unfolding load_or_generate generate verify cluster_os.Identity.exists_at
    cluster_os.Prelude.Maps.lookup cluster_os.Identity.save cluster_os.Auth.bytes_eq
load_or_generate_again_example =
    load_or_generate_again codecs sound sound (inr (zeros 32, zeros 64)) (inl "no entropy") "" []
      made true (λ j h. ap inr (inr-injective made j h)) refl refl
