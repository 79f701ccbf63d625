-- ===== src/Daemon/Updating/Applies.antt =====
-- A download replaces the binary or leaves it: downloadAndApply and startUpdateServer of
-- node/internal/daemon/daemon.go.
use cluster_os.Prelude.{
  String, ◌≡◌, refl, sym, Option, none, some, ◌==◌, ◌⊎◌, inl, inr, eqb, eq_iff, eq_refl, if-both,
}
use cluster_os.Prelude.Split.{trim_space}
use cluster_os.Prelude.Words.{byte_length}
use cluster_os.Daemon.Updating.{
  Download, Applied, renamed, made_executable, copied, fetched, temp_made, expecting, confirmed,
  download_and_apply, served,
}

module _ {ℓ} {Bytes : Type ℓ} (sha256_hex : Bytes → String) (w : Download Bytes)
    (peer_ver : String) where
  -- The peer's version is the one asked for.
  abbrev pub IsVersion : Type 0
  IsVersion = (v : String) × (w.version ≡ inr v) × (trim_space v ≡ peer_ver)

  -- The file is the one that the peer sent, under the hash and the version that it sent.
  abbrev pub IsSent : Bytes → Type ℓ
  IsSent file =
      (w.node_agent ≡ inr file)
      × IsVersion
      × ((s : String) × (w.sha256 ≡ inr s) × (trim_space s ≡ sha256_hex file))

  -- There is an error and the file is as before, or there is none and the file is the one that was sent.
  abbrev pub IsAllOrNothing : Bytes → Applied sha256_hex → Type ℓ
  IsAllOrNothing old (file, error) =
      ((file ≡ old) × ((e : String) × (error ≡ some e))) ⊎ ((error ≡ none) × IsSent file)

  module _ (old : Bytes) where
    renamed-IsAllOrNothing :
        (o : Option String) (new : Bytes)
        → IsSent new
        → IsAllOrNothing old (renamed sha256_hex o new old)
    unfolding renamed
    renamed-IsAllOrNothing (some e) new h = inl (refl, (_, refl))
    renamed-IsAllOrNothing none new h = inr (refl, h)

    made_executable-IsAllOrNothing :
        (o : Option String) (new : Bytes)
        → IsSent new
        → IsAllOrNothing old (made_executable sha256_hex o w new old)
    unfolding made_executable
    made_executable-IsAllOrNothing (some e) new h = inl (refl, (_, refl))
    made_executable-IsAllOrNothing none new h = renamed-IsAllOrNothing w.rename_error new h

    copied-IsAllOrNothing :
        (o : Option String) (s : String) (new : Bytes)
        → w.node_agent ≡ inr new
        → IsVersion
        → w.sha256 ≡ inr s
        → IsAllOrNothing old (copied sha256_hex o w (trim_space s) new old)
    unfolding copied
    copied-IsAllOrNothing (some e) s new n v h = inl (refl, (_, refl))
    copied-IsAllOrNothing none s new n v h =
        if-both (IsAllOrNothing old) (sha256_hex new == trim_space s) _ _
          (λ same.
            let equal = sym ((eq_iff (sha256_hex new) (trim_space s)).0 same) in
            made_executable-IsAllOrNothing w.chmod_error new (n, v, (s, h, equal)))
          (λ other. inl (refl, (_, refl)))

    fetched-IsAllOrNothing :
        (f : String ⊎ Bytes) (s : String)
        → w.node_agent ≡ f
        → IsVersion
        → w.sha256 ≡ inr s
        → IsAllOrNothing old (fetched sha256_hex f w (trim_space s) old)
    unfolding fetched
    fetched-IsAllOrNothing (inl e) s n v h = inl (refl, (_, refl))
    fetched-IsAllOrNothing (inr new) s n v h = copied-IsAllOrNothing w.copy_error s new n v h

    temp_made-IsAllOrNothing :
        (o : Option String) (s : String)
        → IsVersion
        → w.sha256 ≡ inr s
        → IsAllOrNothing old (temp_made sha256_hex o w (trim_space s) old)
    unfolding temp_made
    temp_made-IsAllOrNothing (some e) s v h = inl (refl, (_, refl))
    temp_made-IsAllOrNothing none s v h = fetched-IsAllOrNothing w.node_agent s refl v h

    expecting-IsAllOrNothing :
        (r : String ⊎ String)
        → IsVersion
        → w.sha256 ≡ r
        → IsAllOrNothing old (expecting sha256_hex r w old)
    unfolding expecting
    expecting-IsAllOrNothing (inl e) v h = inl (refl, (_, refl))
    expecting-IsAllOrNothing (inr s) v h =
        if-both (IsAllOrNothing old) (eqb (byte_length (trim_space s)) 64) _ _
          (λ long. temp_made-IsAllOrNothing w.temp_error s v h) (λ other. inl (refl, (_, refl)))

    confirmed-IsAllOrNothing :
        (r : String ⊎ String)
        → w.version ≡ r
        → IsAllOrNothing old (confirmed sha256_hex r peer_ver w old)
    unfolding confirmed
    confirmed-IsAllOrNothing (inl e) h = inl (refl, (_, refl))
    confirmed-IsAllOrNothing (inr v) h =
        if-both (IsAllOrNothing old) (trim_space v == peer_ver) _ _
          (λ same.
            expecting-IsAllOrNothing w.sha256 (v, h, (eq_iff (trim_space v) peer_ver).0 same) refl)
          (λ other. inl (refl, (_, refl)))

-- A download either fails and leaves the binary as it was, or gives no error and the binary is the one that
-- the peer sent, while the peer names the version that was asked for and a hash that is the binary's.
pub download_and_apply-IsAllOrNothing {ℓ} :
    {Bytes : Type ℓ} (sha256_hex : Bytes → String) (w : Download Bytes) (peer_ver : String)
    (old : Bytes)
    → IsAllOrNothing sha256_hex w peer_ver old (download_and_apply sha256_hex w peer_ver old)
unfolding download_and_apply
download_and_apply-IsAllOrNothing sha256_hex w peer_ver old =
    confirmed-IsAllOrNothing sha256_hex w peer_ver old w.version refl

-- A download from a peer's own update server, where nothing fails on the way, makes the peer's binary the
-- node's, if the peer's version is the one asked for and has no space around it, and a hash in hex has 64
-- characters and no space around it.
pub download_and_apply-served {ℓ} :
    {Bytes : Type ℓ} (sha256_hex : Bytes → String) (page theirs old : Bytes) (version : String)
    → ((b : Bytes) → byte_length (sha256_hex b) ≡ 64)
    → ((b : Bytes) → trim_space (sha256_hex b) ≡ sha256_hex b)
    → trim_space version ≡ version
    → download_and_apply sha256_hex (served sha256_hex page version (some theirs)) version old
      ≡ (theirs, none)
unfolding download_and_apply served confirmed expecting temp_made fetched copied made_executable
    renamed
download_and_apply-served sha256_hex page theirs old version long tight trimmed =
    rw (trimmed, eq_refl version, tight theirs, long theirs, eq_refl (sha256_hex theirs)) refl
