-- ===== src/Daemon/Updating.antt =====
-- The update server and watcher: startUpdateServer, checkAndApplyUpdate, downloadAndApply and
-- parseBuildTimeFromVer of node/internal/daemon/daemon.go. SHA-256 with hex, time.Parse, HTTP and the file
-- system are arguments.
pub mod Applies
pub mod Newest
use cluster_os.Prelude.{
  ℕ, String, Bool, true, false, ◌&&◌, ◌||◌, not, Option, none, some, List, [], ◌∷◌, ◌==◌, ◌⊎◌, inl,
  inr, eqb, if◌then◌else◌,
}
use cluster_os.Prelude.Int.{ℤ, pos, ltb_ℤ, eqb_ℤ}
use cluster_os.Prelude.Errors.{caused}
use cluster_os.Prelude.Split.{trim_space}
use cluster_os.Prelude.Words.{cut, byte_length}
use cluster_os.Discovery.Member.{Member, tag, get_alive_members}

-- time.Parse of a layout and a text: nanoseconds from the zero time, if it parses.
abbrev pub ParseTime : Type 0
ParseTime = String → String → Option ℤ

-- The text that is read as a time.
unfoldable pub time_text : Option (String × String) → String → String
time_text none build_time = build_time
time_text (some (before, rest)) build_time = rest

-- The first layout that parses, or the zero time.
unfoldable pub first_parsed : ParseTime → String → List String → ℤ
first_parsed parse ts [] = pos 0
first_parsed parse ts (layout ∷ layouts) =
    let rest = first_parsed parse ts layouts in elim (parse layout ts) [ none ↦ rest | some t ↦ t ]

-- parseBuildTimeFromVer; 43 is "+"
unfoldable pub parse_build_time_from_ver : ParseTime → String → String → ℤ
unfolding time_text first_parsed
parse_build_time_from_ver parse ver build_time =
    let ts = time_text (cut 43 ver) build_time in
    if ts == ""
    then pos 0
    else first_parsed parse ts
        ("2006-01-02T15:04:05" ∷ "2006-01-02_15:04:05" ∷ "2006-01-02T15:04:05Z07:00" ∷ [])

-- What a download meets: each request fails or gives a body, the file cannot be made, and copying,
-- chmod and rename may fail.
pub record Download {ℓ} (Bytes : Type ℓ) : Type ℓ where
  pub version : String ⊎ String
  pub sha256 : String ⊎ String
  pub temp_error : Option String
  pub node_agent : String ⊎ Bytes
  pub copy_error : Option String
  pub chmod_error : Option String
  pub rename_error : Option String

module _ {ℓ} {Bytes : Type ℓ} (sha256_hex : Bytes → String) where
  -- The file at updateBinaryPath and the error, if there is one.
  abbrev pub Applied : Type ℓ
  Applied = Bytes × Option String

  unfoldable pub renamed : Option String → Bytes → Bytes → Applied
  renamed (some e) new old = (old, some (caused "rename" e))
  renamed none new old = (new, none)

  unfoldable pub made_executable : Option String → Download Bytes → Bytes → Bytes → Applied
  made_executable (some e) w new old = (old, some (caused "chmod" e))
  made_executable none w new old = renamed w.rename_error new old

  unfoldable pub copied : Option String → Download Bytes → String → Bytes → Bytes → Applied
  copied (some e) w expected new old = (old, some (caused "write binary" e))
  copied none w expected new old =
      if sha256_hex new == expected
      then made_executable w.chmod_error w new old
      else (old, some "SHA256 mismatch")

  unfoldable pub fetched : String ⊎ Bytes → Download Bytes → String → Bytes → Applied
  fetched (inl e) w expected old = (old, some (caused "download binary" e))
  fetched (inr new) w expected old = copied w.copy_error w expected new old

  unfoldable pub temp_made : Option String → Download Bytes → String → Bytes → Applied
  temp_made (some e) w expected old = (old, some (caused "create temp" e))
  temp_made none w expected old = fetched w.node_agent w expected old

  unfoldable pub expecting : String ⊎ String → Download Bytes → Bytes → Applied
  expecting (inl e) w old = (old, some (caused "fetch sha256" e))
  expecting (inr body) w old =
      if eqb (byte_length (trim_space body)) 64
      then temp_made w.temp_error w (trim_space body) old
      else (old, some "invalid sha256 response")

  unfoldable pub confirmed : String ⊎ String → String → Download Bytes → Bytes → Applied
  confirmed (inl e) peer_ver w old = (old, some (caused "probe version" e))
  confirmed (inr body) peer_ver w old =
      if trim_space body == peer_ver
      then expecting w.sha256 w old
      else (old, some "version mismatch")

  -- downloadAndApply; the values that two of the errors print are left out
  unfoldable pub download_and_apply : Download Bytes → String → Bytes → Applied
  download_and_apply w peer_ver old = confirmed w.version peer_ver w old

  -- What the handlers of startUpdateServer answer, for the version and the file, if it can be opened, of a
  -- peer, when nothing else fails. `page` is the body of a page that is not found.
  unfoldable pub served : Bytes → String → Option Bytes → Download Bytes
  served page version file = record {
    version = inr version;
    sha256 = inr (elim file [ none ↦ "binary unavailable\n" | some b ↦ sha256_hex b ]);
    temp_error = none;
    node_agent = inr (elim file [ none ↦ page | some b ↦ b ]);
    copy_error = none;
    chmod_error = none;
    rename_error = none;
  }

-- The peer to download from.
pub record Candidate : Type 0 where
  pub addr : String
  pub ver : String
  pub build_time : ℤ

-- Where a peer serves.
unfoldable pub peer_ip : Member → String
peer_ip m = if tag "tsip" m.tags == "" then m.addr else tag "tsip" m.tags

-- Whether a member is weighed at all: not this node, with a version that has a time.
unfoldable pub is_timestamped : ParseTime → String → Member → Bool
is_timestamped parse self m =
    not (m.name == self)
    && (not (tag "ver" m.tags == "")
        && not (eqb_ℤ (parse_build_time_from_ver parse (tag "ver" m.tags) "") (pos 0)))

unfoldable pub newest_from : ParseTime → String → Candidate → List Member → Candidate
newest_from parse self best [] = best
newest_from parse self best (m ∷ ms) =
    let time = parse_build_time_from_ver parse (tag "ver" m.tags) "" in
    let next : Candidate = record { addr = peer_ip m; ver = tag "ver" m.tags; build_time = time } in
    let kept = newest_from parse self best ms in
    let taken = newest_from parse self next ms in
    if is_timestamped parse self m && ltb_ℤ best.build_time time then taken else kept

unfoldable pub newest : ParseTime → String → List Member → Candidate
newest parse self members =
    newest_from parse self (record { addr = ""; ver = ""; build_time = pos 0 })
      (get_alive_members members)

-- updateBinaryPath
abbrev pub update_binary_path : String
update_binary_path = "/usr/local/bin/node-agent"

-- The path to exec: that of the running executable without symbolic links, if it is found.
unfoldable pub exec_path : Option String → String
exec_path none = update_binary_path
exec_path (some real) = real

-- What stands at that path after a download.
unfoldable pub exec_image {ℓ} : {Bytes : Type ℓ} → Option String → (String → Bytes) → Bytes → Bytes
unfolding exec_path
exec_image own others file =
    if exec_path own == update_binary_path then file else others (exec_path own)

-- checkAndApplyUpdate: the file at updateBinaryPath afterwards, and what exec is to run, if it is called.
-- `own` is the path of the running executable without symbolic links, if it is found, and `others` the files
-- at other paths. The network is what a download from an address meets.
unfoldable pub check_and_apply_update {ℓ} :
    {Bytes : Type ℓ}
    → ParseTime
    → (Bytes → String)
    → (String → Download Bytes)
    → Option String
    → (String → Bytes)
    → String
    → String
    → String
    → List Member
    → Bytes
    → Bytes × Option Bytes
unfolding exec_image
check_and_apply_update parse sha256_hex network own others self version build_time members binary =
    let best = newest parse self members in
    if best.addr == ""
    then (binary, none)
    else if not (ltb_ℤ (parse_build_time_from_ver parse version build_time) best.build_time)
    then (binary, none)
    else let (file, error) = download_and_apply sha256_hex (network best.addr) best.ver binary in
      elim error [ none ↦ (file, some (exec_image own others file)) | some e ↦ (file, none) ]
