-- ===== src/Examples/Auth.antt =====
-- node/internal/auth/cluster_auth.go with a codec that can be computed.
use Prim.Native.Char.{code}
use Prim.Native.String.{len}
use cluster_os.Prelude.{
  ℕ, zero, suc, ◌+◌, String, ◌≡◌, refl, ap, Bool, true, ◌&&◌, Option, none, some, [], ◌∷◌, ◌++◌,
  ◌==◌, eqb, eq_iff, arith, if◌then◌else◌, Bool-cases, inl, inr,
}
use cluster_os.Auth.{
  Bytes, Challenge, Response, Result, ok, err, Codec, ClusterAuth, create_join_token,
  verify_join_token, verify_compact_join_token, create_compact_join_token, validate_cluster_key,
  new,
}
use cluster_os.Auth.Tokens.{
  RoundTrips, IsGenuine, worth, verify-create_join_token, verify_join_token_sound,
}

-- A number in unary, before a text.
abbrev pub write_byte : ℕ → String → String
write_byte zero s = String.◌∷◌ "0" s
write_byte (suc n) s = String.◌∷◌ "1" (write_byte n s)

abbrev pub write_bytes : Bytes → String
write_bytes [] = ""
write_bytes (n ∷ ns) = write_byte n (write_bytes ns)

abbrev pub read_from : ℕ → String → Option Bytes
read_from n String.[] = some []
read_from n (String.◌∷◌ c s) =
    let next = read_from (suc n) s in
    let rest = read_from 0 s in
    if eqb (code c) 49 then next else (elim rest [ none ↦ none | some ns ↦ some (n ∷ ns) ])

read-write_byte :
    (k n : ℕ) (s : String) (ns : Bytes)
    → read_from 0 s ≡ some ns
    → read_from k (write_byte n s) ≡ some ((k + n) ∷ ns)
read-write_byte k zero s ns h = rw h (ground arith)
read-write_byte k (suc n) s ns h = ground (arith, read-write_byte (suc k) n s ns h)

read-write : (ns : Bytes) → read_from 0 (write_bytes ns) ≡ some ns
read-write [] = refl
read-write (n ∷ ns) = ground (arith, read-write_byte 0 n (write_bytes ns) ns (read-write ns))

abbrev pub cluster_auth : ClusterAuth
cluster_auth = record { auth_key = 1 ∷ 2 ∷ [] }

-- The only response that the codec marshals.
abbrev sent : Response
sent = record {
  challenge = record { nonce = write_bytes (7 ∷ []); timestamp = 5; node_id = "n1" };
  signature = write_bytes (1 ∷ 2 ∷ 5 ∷ []);
}

abbrev is_sent : Response → Bool
is_sent r =
    (r.challenge.nonce == write_bytes (7 ∷ []) && eqb r.challenge.timestamp 5)
    && (r.challenge.node_id == "n1" && r.signature == write_bytes (1 ∷ 2 ∷ 5 ∷ []))

abbrev pub codec : Codec
codec = record {
  hmac_sha256 = λ key bytes. key ++ bytes;
  to_bytes = λ s. len s ∷ [];
  raw_url_encode = write_bytes;
  std_encode = write_bytes;
  std_decode = read_from 0;
  marshal_challenge = λ c. some (c.timestamp ∷ []);
  marshal_response = λ r. if is_sent r then some (1 ∷ []) else none;
  unmarshal_response = λ b. some sent;
}

sent_is : (r : Response) → is_sent r ≡ true → sent ≡ r
sent_is r h = ground (
  arith,
  eq_iff r.challenge.nonce (write_bytes (7 ∷ [])),
  eq_iff r.challenge.node_id "n1",
  eq_iff r.signature (write_bytes (1 ∷ 2 ∷ 5 ∷ [])),
)

round_trips : RoundTrips codec
round_trips = record {
  decode-encode = read-write;
  unmarshal-marshal = λ r b h. elim (Bool-cases (is_sent r)) [
    | inl e ↦ ap some (sent_is r e)
    | inr e ↦ absurd (ground arith)
  ];
}

verify-create_join_token_example :
    verify_join_token codec cluster_auth 9 (write_bytes (1 ∷ [])) ≡ worth codec 5 9 "n1"
unfolding create_join_token
verify-create_join_token_example =
    verify-create_join_token codec cluster_auth (some (7 ∷ [])) 5 9 "n1" (write_bytes (1 ∷ []))
      round_trips refl

verify_join_token_sound_example :
    (bytes : Bytes) × (response : Response) × (codec.std_decode (write_bytes (1 ∷ [])) ≡ some bytes)
    × (codec.unmarshal_response bytes ≡ some response)
    × (response.challenge.node_id ≡ "n1")
    × IsGenuine codec cluster_auth 9 response
unfolding verify_join_token cluster_os.Auth.bytes_eq
verify_join_token_sound_example =
    verify_join_token_sound codec cluster_auth 9 (write_bytes (1 ∷ [])) "n1" refl
