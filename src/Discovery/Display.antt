-- ===== src/Discovery/Display.antt =====
-- ShortNodeID, ParseEncryptKey and GetHealthScore of node/internal/discovery/serf.go. SHA-256 in hex, base64
-- and the statistics of Serf are arguments.
use Prim.Native.String.{[], ◌∷◌}
use cluster_os.Prelude.{
  ℕ, zero, suc, String, ◌||◌, Option, none, some, ◌==◌, ◌⊎◌, inl, inr, eqb, leb, length,
  if◌then◌else◌,
}
use cluster_os.Prelude.Int.{ℤ, pos, atoi}
use cluster_os.Prelude.Errors.{caused, after_text}
use cluster_os.Prelude.Words.{byte_length}
use cluster_os.Prelude.Maps.{Map, lookup}
use cluster_os.Auth.{Bytes}

-- s[:n] of a text of one-byte characters
unfoldable pub first_chars : ℕ → String → String
first_chars zero s = ""
first_chars (suc n) [] = ""
first_chars (suc n) (c ∷ s) = String.◌∷◌ c (first_chars n s)

-- ShortNodeID
unfoldable pub short_node_id : (String → String) → String → String
unfolding first_chars
short_node_id sha256_hex full_id =
    if leb (byte_length full_id) 16 then full_id else first_chars 16 (sha256_hex full_id)

unfoldable pub sized_key : (ℕ → String) → String ⊎ Bytes → String ⊎ Bytes
sized_key itoa (inl e) = inl (caused "failed to decode encryption key" e)
sized_key itoa (inr key) =
    if eqb (length key) 16 || (eqb (length key) 24 || eqb (length key) 32)
    then inr key
    else inl (after_text "encryption key must be 16, 24, or 32 bytes, got " (itoa (length key)))

-- ParseEncryptKey, where no key stands for nil
unfoldable pub parse_encrypt_key :
    (ℕ → String) → (String → String ⊎ Bytes) → String → String ⊎ Option Bytes
unfolding sized_key
parse_encrypt_key itoa decode key_str =
    if key_str == ""
    then inr none
    else elim (sized_key itoa (decode key_str)) [ inl e ↦ inl e | inr key ↦ inr (some key) ]

unfoldable pub score_of : Option String → ℤ
score_of none = pos 0
score_of (some text) = let (score, fine) = atoi text in if fine then score else pos 0

-- GetHealthScore
unfoldable pub get_health_score : Map String → ℤ
unfolding score_of
get_health_score stats = score_of (lookup "health_score" stats)
