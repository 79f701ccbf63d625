-- ===== src/Auth/Tokens.antt =====
-- What the tokens of node/internal/auth/cluster_auth.go prove.
use cluster_os.Prelude.{
  ℕ, ◌+◌, ◌*◌, ◌≤◌, String, ◌≡◌, refl, ◌↔◌, true, Option, none, some, [], ◌∷◌, eq_iff, ltb,
  if◌then◌else◌, arith, Option-cases, inl, inr,
}
use cluster_os.Auth.{
  Bytes, bytes_eq, Challenge, Response, AuthError, Result, ok, err, Codec, ClusterAuth, minute, new,
  validate_cluster_key, verify_response, create_join_token, create_compact_join_token,
  verify_compact_join_token, verify_join_token, expired, in_future,
}

bytes_eq_refl : (b : Bytes) → bytes_eq b b ≡ true
unfolding bytes_eq
bytes_eq_refl [] = refl
bytes_eq_refl (x ∷ xs) = ground (arith, bytes_eq_refl xs)

bytes_eq-eq : (a b : Bytes) → bytes_eq a b ≡ true → a ≡ b
unfolding bytes_eq
bytes_eq-eq [] [] h = refl
bytes_eq-eq [] (y ∷ ys) h = ground arith
bytes_eq-eq (x ∷ xs) [] h = ground arith
bytes_eq-eq (x ∷ xs) (y ∷ ys) h = ground (arith, bytes_eq-eq xs ys)

abbrev pub error_of {ℓ} : {A : Type ℓ} → Result A → Option AuthError
error_of (ok a) = none
error_of (err e) = some e

-- The documented round trips of base64 and JSON.
pub record RoundTrips (codec : Codec) : Type 0 where
  pub decode-encode : (b : Bytes) → codec.std_decode (codec.std_encode b) ≡ some b
  pub unmarshal-marshal :
      (r : Response) (b : Bytes)
      → codec.marshal_response r ≡ some b
      → codec.unmarshal_response b ≡ some r

module _ (codec : Codec) where
  -- ValidateClusterKey accepts exactly the keys that New accepts, and gives the same error for each other.
  pub validate-new : (key : String) → validate_cluster_key codec key ≡ error_of (new codec key)
  unfolding validate_cluster_key new
  validate-new key = ground arith

  -- A compact token is accepted for a node exactly if it is the one that a holder of the key creates.
  pub verify_compact_exact :
      (ca : ClusterAuth) (node_id token : String)
      → (verify_compact_join_token codec ca node_id token ≡ ok tt)
        ↔ (create_compact_join_token codec ca node_id ≡ token)
  unfolding verify_compact_join_token
  verify_compact_exact ca node_id token =
      (λ h. (eq_iff _ _).0 (ground arith), λ e. rw ((eq_iff _ _).1 e) refl)

  -- What a token made at `made` for a node is worth at `now`.
  abbrev pub worth : ℕ → ℕ → String → Result String
  worth made now node_id =
      if ltb (made + 5 * minute) now
      then err expired
      else if ltb (now + minute) made
      then err in_future
      else ok node_id

  -- A token that a holder of the key makes at `made` names its node to every holder of the key from one
  -- minute before `made` up to five minutes after it, and is refused as expired later and as being in
  -- the future earlier.
  pub verify-create_join_token :
      (ca : ClusterAuth) (random : Option Bytes) (made now : ℕ) (node_id token : String)
      → RoundTrips codec
      → create_join_token codec ca random made node_id ≡ ok token
      → verify_join_token codec ca now token ≡ worth made now node_id
  unfolding create_join_token verify_join_token
  verify-create_join_token ca none made now node_id token trips h = ground arith
  verify-create_join_token ca (some random) made now node_id token trips h =
      let challenge : Challenge = record {
        nonce = codec.std_encode random;
        timestamp = made;
        node_id = node_id;
      } in
      elim (Option-cases (codec.marshal_challenge challenge)) [
        | inl e ↦ ground arith
        | inr (bytes, e) ↦
            let mac = codec.hmac_sha256 ca.auth_key bytes in
            let response : Response = record {
              challenge = challenge;
              signature = codec.std_encode mac;
            } in
            elim (Option-cases (codec.marshal_response response)) [
              | inl f ↦ ground arith
              | inr (sent, f) ↦ ground (
                arith,
                trips.decode-encode sent,
                trips.unmarshal-marshal response sent f,
                trips.decode-encode mac,
                bytes_eq_refl mac,
              )
            ]
      ]

  -- The response is signed under the key, and its time lies in the window.
  pub record IsGenuine (ca : ClusterAuth) (now : ℕ) (response : Response) : Type 0 where
    pub bytes : Bytes
    pub marshalled : codec.marshal_challenge response.challenge ≡ some bytes
    pub signed : codec.std_decode response.signature ≡ some (codec.hmac_sha256 ca.auth_key bytes)
    pub not_expired : now ≤ response.challenge.timestamp + 5 * minute
    pub not_ahead : response.challenge.timestamp ≤ now + minute

  pub verify_response_sound :
      (ca : ClusterAuth) (now : ℕ) (response : Response)
      → verify_response codec ca now response ≡ ok tt
      → IsGenuine ca now response
  unfolding verify_response
  verify_response_sound ca now response h =
      elim (Option-cases (codec.marshal_challenge response.challenge)) [
        | inl e ↦ absurd (ground arith)
        | inr (bytes, e) ↦
            let mac = codec.hmac_sha256 ca.auth_key bytes in
            elim (Option-cases (codec.std_decode response.signature)) [
              | inl f ↦ absurd (ground arith)
              | inr (signature, f) ↦ record {
                bytes = bytes;
                marshalled = e;
                signed = ground (arith, bytes_eq-eq signature mac);
                not_expired = ground arith;
                not_ahead = ground arith;
              }
            ]
      ]

  -- A token is accepted only as the encoding of a response that names the node, whose signature is the
  -- HMAC of its challenge under the key, and whose time lies in the window.
  pub verify_join_token_sound :
      (ca : ClusterAuth) (now : ℕ) (token node_id : String)
      → verify_join_token codec ca now token ≡ ok node_id
      → (sent : Bytes) × (response : Response) × (codec.std_decode token ≡ some sent)
        × (codec.unmarshal_response sent ≡ some response)
        × (response.challenge.node_id ≡ node_id)
        × IsGenuine ca now response
  unfolding verify_join_token
  verify_join_token_sound ca now token node_id h = elim (Option-cases (codec.std_decode token)) [
    | inl e ↦ absurd (ground arith)
    | inr (sent, e) ↦ elim (Option-cases (codec.unmarshal_response sent)) [
      | inl f ↦ absurd (ground arith)
      | inr (response, f) ↦
          (sent, response, e, f, ground arith, verify_response_sound ca now response (ground arith))
    ]
  ]
