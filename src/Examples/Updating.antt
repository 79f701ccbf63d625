-- ===== src/Examples/Updating.antt =====
-- Two binaries, by number, and a peer that serves the newer one.
use cluster_os.Prelude.{
  ℕ, String, ◌≡◌, refl, true, Option, none, some, [], ◌∷◌, ◌==◌, ◌⊎◌, inl, inr, eqb, if-both,
  if◌then◌else◌,
}
use cluster_os.Prelude.Int.{pos, ltb_ℤ}
use cluster_os.Prelude.Split.{trim_space}
use cluster_os.Prelude.Words.{byte_length}
use cluster_os.Discovery.Member.{Member, alive, get_alive_members}
use cluster_os.Daemon.Updating.{
  ParseTime, Download, Candidate, served, download_and_apply, check_and_apply_update,
  update_binary_path, exec_path, parse_build_time_from_ver,
}
use cluster_os.Daemon.Updating.Applies.{IsSent, IsAllOrNothing, download_and_apply-IsAllOrNothing}
use cluster_os.Daemon.Updating.Newest.{IsOffered, NoneNewer, check_and_apply_update-newer}

abbrev sha : ℕ → String
sha b =
    if eqb b 1
    then "1111111111111111111111111111111111111111111111111111111111111111"
    else "2222222222222222222222222222222222222222222222222222222222222222"

abbrev refusing : Download ℕ
refusing = record {
  version = inr "v2 ";
  sha256 = inl "refused";
  temp_error = none;
  node_agent = inr 2;
  copy_error = none;
  chmod_error = none;
  rename_error = none;
}

abbrev parse : ParseTime
parse layout text = if text == "2024-01-02T00:00:00" then some (pos 5) else none

abbrev peer : Member
peer = record {
  name = "b";
  addr = "10.0.0.2";
  port = 7946;
  status = alive;
  tags = ("ver", "abc+2024-01-02T00:00:00") ∷ [];
}

abbrev network : String → Download ℕ
network addr = served sha 0 "abc+2024-01-02T00:00:00" (some 2)

download_and_apply-IsAllOrNothing_example :
    IsAllOrNothing sha refusing "v2" 1 (download_and_apply sha refusing "v2" 1)
download_and_apply-IsAllOrNothing_example = download_and_apply-IsAllOrNothing sha refusing "v2" 1

sha_long : (b : ℕ) → byte_length (sha b) ≡ 64
unfolding byte_length
sha_long b = if-both (λ s. byte_length s ≡ 64) (eqb b 1) _ _ (λ e. refl) (λ e. refl)

sha_tight : (b : ℕ) → trim_space (sha b) ≡ sha b
unfolding trim_space
sha_tight b = if-both (λ s. trim_space s ≡ s) (eqb b 1) _ _ (λ e. refl) (λ e. refl)

-- The agent runs from updateBinaryPath; other files are 3.
abbrev own : Option String
own = some "/usr/local/bin/node-agent"

abbrev others : String → ℕ
others path = 3

own_path : exec_path own ≡ update_binary_path
unfolding exec_path
own_path = refl

check_and_apply_update-newer_example :
    let after = check_and_apply_update parse sha network own others "a" "def" "" (peer ∷ []) 1 in
    ((after.0 ≡ 1) × (after.1 ≡ none))
    ⊎ ((after.1 ≡ some after.0)
        × ((c : Candidate) × IsOffered parse "a" c (get_alive_members (peer ∷ []))
            × NoneNewer parse "a" c (get_alive_members (peer ∷ []))
            × (ltb_ℤ (parse_build_time_from_ver parse "def" "") c.build_time ≡ true)
            × IsSent sha (network c.addr) c.ver after.0))
check_and_apply_update-newer_example =
    check_and_apply_update-newer parse sha network own others "a" "def" "" (peer ∷ []) 1 own_path
