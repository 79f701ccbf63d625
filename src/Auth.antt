-- ===== src/Auth.antt =====
-- node/internal/auth/cluster_auth.go: proofs that a node holds the cluster key. HMAC-SHA256, base64 and
-- JSON are packages of Go and enter by the interface `Codec`; times are nanoseconds.
pub mod Tokens
use cluster_os.Prelude.{
  ℕ, ◌+◌, ◌*◌, ◌^◌, String, ◌≡◌, Bool, true, false, ◌&&◌, Option, none, some, List, [], ◌∷◌, ◌==◌,
  ltb, eqb, if◌then◌else◌, length,
}

abbrev pub Bytes : Type 0
Bytes = List ℕ

-- bytes.Equal and hmac.Equal
unfoldable pub bytes_eq : Bytes → Bytes → Bool
bytes_eq [] [] = true
bytes_eq [] (y ∷ ys) = false
bytes_eq (x ∷ xs) [] = false
bytes_eq (x ∷ xs) (y ∷ ys) = eqb x y && bytes_eq xs ys

pub record Challenge : Type 0 where
  pub nonce : String
  pub timestamp : ℕ
  pub node_id : String

pub record Response : Type 0 where
  pub challenge : Challenge
  pub signature : String

pub data AuthError : Type 0 where
  empty_key bad_key short_key nonce_failed marshal_failed : AuthError
  expired in_future bad_signature_text invalid_signature : AuthError
  bad_token unmarshal_failed invalid_compact_token : AuthError

-- What a check gives: an error, or a value.
pub data Result {ℓ} (V : Type ℓ) : Type ℓ where
  err : AuthError → Result V
  ok : V → Result V

infixl 5 ◌>>=◌ ◌>>◌
-- The first error of a chain ends it.
abbrev pub ◌>>=◌ {ℓ κ} : {V : Type ℓ} {W : Type κ} → Result V → (V → Result W) → Result W
err reason >>= next = err reason
ok value >>= next = next value

abbrev pub ◌>>◌ {κ} : {W : Type κ} → Result (Unit {0}) → Result W → Result W
err reason >> next = err reason
ok _ >> next = next

-- A missing value is an error.
abbrev pub or_err {ℓ} : {A : Type ℓ} → Option A → AuthError → Result A
or_err none e = err e
or_err (some a) e = ok a

abbrev pub reject_if : Bool → AuthError → Result (Unit {0})
reject_if true e = err e
reject_if false e = ok tt

-- What the code uses of crypto/hmac, encoding/base64 and encoding/json.
pub record Codec : Type 0 where
  pub hmac_sha256 : Bytes → Bytes → Bytes
  pub to_bytes : String → Bytes
  pub raw_url_encode : Bytes → String
  pub std_encode : Bytes → String
  pub std_decode : String → Option Bytes
  pub marshal_challenge : Challenge → Option Bytes
  pub marshal_response : Response → Option Bytes
  pub unmarshal_response : Bytes → Option Response

-- in nanoseconds
abbrev pub second : ℕ
second = 1000000000

abbrev pub minute : ℕ
minute = 60 * second

-- ClusterAuth: the key.
pub record ClusterAuth : Type 0 where
  pub auth_key : Bytes

module _ (codec : Codec) where
  open codec use {
    hmac_sha256, to_bytes, raw_url_encode, std_encode, std_decode, marshal_challenge,
    marshal_response, unmarshal_response,
  }

  unfoldable pub new : String → Result ClusterAuth
  new auth_key_base64 = if auth_key_base64 == "" then err empty_key else do
    auth_key ← or_err (std_decode auth_key_base64) bad_key
    if ltb (length auth_key) 32 then err short_key else ok (record { auth_key = auth_key })

  unfoldable pub validate_cluster_key : String → Option AuthError
  validate_cluster_key auth_key_base64 =
      if auth_key_base64 == "" then some empty_key else (elim (std_decode auth_key_base64) [
        | none ↦ some bad_key
        | some auth_key ↦ if ltb (length auth_key) 32 then some short_key else none
      ])

  -- `random` is what crypto/rand gives for the 32 bytes, if it gives them.
  unfoldable pub generate_challenge : Option Bytes → ℕ → String → Result Challenge
  generate_challenge random now node_id = do
    nonce_bytes ← or_err random nonce_failed
    ok (record { nonce = std_encode nonce_bytes; timestamp = now; node_id = node_id })

  unfoldable pub sign_challenge : ClusterAuth → Challenge → Result Response
  sign_challenge ca challenge = do
    challenge_bytes ← or_err (marshal_challenge challenge) marshal_failed
    ok (record {
      challenge = challenge;
      signature = std_encode (hmac_sha256 ca.auth_key challenge_bytes);
    })

  -- The age of the challenge is `now` less its timestamp, and may be negative.
  unfoldable pub verify_response : ClusterAuth → ℕ → Response → Result (Unit {0})
  verify_response ca now response = do
    reject_if (ltb (response.challenge.timestamp + 5 * minute) now) expired
    reject_if (ltb (now + minute) response.challenge.timestamp) in_future
    challenge_bytes ← or_err (marshal_challenge response.challenge) marshal_failed
    signature ← or_err (std_decode response.signature) bad_signature_text
    if bytes_eq signature (hmac_sha256 ca.auth_key challenge_bytes)
        then ok tt
        else err invalid_signature

  unfoldable pub create_join_token : ClusterAuth → Option Bytes → ℕ → String → Result String
  unfolding generate_challenge sign_challenge
  create_join_token ca random now node_id = do
    challenge ← generate_challenge random now node_id
    response ← sign_challenge ca challenge
    response_bytes ← or_err (marshal_response response) marshal_failed
    ok (std_encode response_bytes)

  unfoldable pub create_compact_join_token : ClusterAuth → String → String
  create_compact_join_token ca node_id = raw_url_encode (hmac_sha256 ca.auth_key (to_bytes node_id))

  unfoldable pub verify_compact_join_token : ClusterAuth → String → String → Result (Unit {0})
  unfolding create_compact_join_token
  verify_compact_join_token ca node_id token =
      if create_compact_join_token ca node_id == token then ok tt else err invalid_compact_token

  unfoldable pub verify_join_token : ClusterAuth → ℕ → String → Result String
  unfolding verify_response
  verify_join_token ca now token = do
    response_bytes ← or_err (std_decode token) bad_token
    response ← or_err (unmarshal_response response_bytes) unmarshal_failed
    verify_response ca now response
    ok response.challenge.node_id
