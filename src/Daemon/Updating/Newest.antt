-- ===== src/Daemon/Updating/Newest.antt =====
-- Whose binary a node takes: checkAndApplyUpdate of node/internal/daemon/daemon.go.
use cluster_os.Prelude.{
  String, ◌≡◌, ◌≢◌, refl, sym, ap, ◌∙◌, true, false, ◌&&◌, Option, none, some, List, [], ◌∷◌, ◌==◌,
  ◌⊎◌, inl, inr, eq_iff, arith, if-both, and_true, false≢true, Bool-cases,
}
use cluster_os.Prelude.Int.{ℤ, pos, ltb_ℤ, ltb_ℤ_late, ltb_ℤ_early, ltb_ℤ_irrefl}
use cluster_os.Discovery.Member.{Member, tag, get_alive_members}
use cluster_os.Daemon.Updating.Applies.{IsSent, download_and_apply-IsAllOrNothing}
use cluster_os.Daemon.Updating.{
  ParseTime, Download, Candidate, peer_ip, is_timestamped, newest_from, newest,
  check_and_apply_update, update_binary_path, exec_path, exec_image, download_and_apply,
  parse_build_time_from_ver,
}

module _ (parse : ParseTime) (self : String) where
  -- When a member's binary was built.
  abbrev pub built : Member → ℤ
  built m = parse_build_time_from_ver parse (tag "ver" m.tags) ""

  -- The candidate is what this member offers.
  abbrev pub IsFrom : Candidate → Member → Type 0
  IsFrom c m =
      (is_timestamped parse self m ≡ true)
      × (c.addr ≡ peer_ip m)
      × (c.ver ≡ tag "ver" m.tags)
      × (c.build_time ≡ built m)

  -- No member with a time is newer than the candidate.
  abbrev pub NoneNewer : Candidate → List Member → Type 0
  NoneNewer c [] = Unit
  NoneNewer c (m ∷ ms) =
      (is_timestamped parse self m ≡ true → ltb_ℤ c.build_time (built m) ≡ false) × NoneNewer c ms

  -- The candidate is what one of the members offers.
  abbrev pub IsOffered : Candidate → List Member → Type 0
  IsOffered c [] = ⊥
  IsOffered c (m ∷ ms) = IsFrom c m ⊎ IsOffered c ms

  -- What a choice among members gives, over the candidate before them.
  abbrev IsBest : Candidate → List Member → Candidate → Type 0
  IsBest first ms c =
      (ltb_ℤ c.build_time first.build_time ≡ false)
      × NoneNewer c ms
      × ((c ≡ first) ⊎ IsOffered c ms)

  newest_from-IsBest :
      (first : Candidate) (ms : List Member) → IsBest first ms (newest_from parse self first ms)
  unfolding newest_from
  newest_from-IsBest first [] = (ltb_ℤ_irrefl first.build_time, tt, inl refl)
  newest_from-IsBest first (m ∷ ms) =
      let next : Candidate = record {
        addr = peer_ip m;
        ver = tag "ver" m.tags;
        build_time = built m;
      } in
      if-both (IsBest first (m ∷ ms))
        (is_timestamped parse self m && ltb_ℤ first.build_time (built m)) _ _
        (λ e.
          let (timed, newer) = and_true _ _ e in
          let (late, none_newer, offered) = newest_from-IsBest next ms in
          (
            ltb_ℤ_late first.build_time (built m) _ newer late,
            (λ t. late, none_newer),
            elim offered [
              | inl same ↦ inr (
                  inl (
                    timed,
                    ap (λ x. x.addr) same,
                    ap (λ x. x.ver) same,
                    ap (λ x. x.build_time) same,
                  ))
              | inr among ↦ inr (inr among)
            ],
          ))
        (λ e.
          let (late, none_newer, offered) = newest_from-IsBest first ms in
          let not_newer = λ (t : is_timestamped parse self m ≡ true).
            ltb_ℤ_early first.build_time (built m) _ (ground arith) late in
          (
            late,
            (not_newer, none_newer),
            elim offered [ inl same ↦ inl same | inr among ↦ inr (inr among) ],
          ))

  newest-IsOffered :
      (c : Candidate) (ms : List Member)
      → c.addr ≢ ""
      → (c ≡ record { addr = ""; ver = ""; build_time = pos 0 }) ⊎ IsOffered c ms
      → IsOffered c ms
  newest-IsOffered c ms known (inl same) = absurd (known (ap (λ x. x.addr) same))
  newest-IsOffered c ms known (inr among) = among

-- What runs from updateBinaryPath is the file there.
exec_image-same {ℓ} :
    {Bytes : Type ℓ} (own : Option String) (others : String → Bytes) (file : Bytes)
    → exec_path own ≡ update_binary_path
    → exec_image own others file ≡ file
unfolding exec_image
exec_image-same own others file here = rw ((eq_iff (exec_path own) update_binary_path).1 here) refl

-- On a node whose agent runs from updateBinaryPath, or does not find the path that it runs from, an update
-- check leaves the binary and runs nothing, or it runs a binary that a peer has sent under that peer's version
-- and hash, which then stands at updateBinaryPath. The peer is alive, is not this node, and names a version
-- with a time; no other peer with a time names a later one, and this node's own version has an earlier one: a
-- node never goes back to an older build.
pub check_and_apply_update-newer {ℓ} :
    {Bytes : Type ℓ} (parse : ParseTime) (sha256_hex : Bytes → String)
    (network : String → Download Bytes) (own : Option String) (others : String → Bytes)
    (self version build_time : String) (members : List Member) (binary : Bytes)
    → exec_path own ≡ update_binary_path
    → let after =
        check_and_apply_update parse sha256_hex network own others self version build_time members
          binary in
      ((after.0 ≡ binary) × (after.1 ≡ none))
      ⊎ ((after.1 ≡ some after.0)
          × ((c : Candidate) × IsOffered parse self c (get_alive_members members)
              × NoneNewer parse self c (get_alive_members members)
              × (ltb_ℤ (parse_build_time_from_ver parse version build_time) c.build_time ≡ true)
              × IsSent sha256_hex (network c.addr) c.ver after.0))
unfolding check_and_apply_update newest
check_and_apply_update-newer parse sha256_hex network own others self version build_time members
      binary here =
    let alive = get_alive_members members in
    let best = newest parse self members in
    let first : Candidate = record { addr = ""; ver = ""; build_time = pos 0 } in
    let (late, none_newer, offered) = newest_from-IsBest parse self first alive in
    let local = parse_build_time_from_ver parse version build_time in
    elim (Bool-cases (best.addr == "")) [
      | inl e ↦ rw (e, check_and_apply_update) (inl (refl, refl))
      | inr e ↦ elim (Bool-cases (ltb_ℤ local best.build_time)) [
        | inr f ↦ rw (e, f, check_and_apply_update) (inl (refl, refl))
        | inl f ↦
            elim (download_and_apply-IsAllOrNothing sha256_hex (network best.addr) best.ver
              binary) [
                | inl (same, err) ↦ rw (e, f, err.1, check_and_apply_update) (inl (same, refl))
                | inr (fine, sent) ↦
                    let known =
                      newest-IsOffered parse self best alive
                        (λ s. false≢true (sym e ∙ (eq_iff best.addr "").1 s)) offered in
                    let file =
                      (download_and_apply sha256_hex (network best.addr) best.ver binary).0 in
                    rw (e, f, fine, check_and_apply_update)
                      (inr (
                        ap some (exec_image-same own others file here),
                        (best, known, none_newer, f, sent),
                      ))
              ]
      ]
    ]
