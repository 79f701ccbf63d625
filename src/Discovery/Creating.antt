-- ===== src/Discovery/Creating.antt =====
-- New of node/internal/discovery/serf.go, with what it reads of the machine. Creating Serf, and joining by it,
-- are the Serf library's.
pub mod Admitted
use cluster_os.Prelude.{
  ℕ, ◌+◌, ◌/◌, String, Bool, true, false, ◌&&◌, not, Option, none, some, List, [], ◌∷◌, ◌==◌, ◌⊎◌,
  inl, inr, if◌then◌else◌, filter, length,
}
use cluster_os.Prelude.Int.{ℤ, pos, negsuc, ltb_ℤ}
use cluster_os.Prelude.Maps.{Map, insert}
use cluster_os.Prelude.Errors.{after_text, caused}
use cluster_os.Prelude.Split.{trim_space}
use cluster_os.Prelude.Words.{has_prefix, contains}
use cluster_os.Prelude.Fields.{fields, split_at}
use cluster_os.Auth.{
  Bytes, Codec, ClusterAuth, AuthError, Result, ok, err, create_compact_join_token,
}
use cluster_os.Auth as Auth

-- localGPUCount: the NVIDIA devices, and the vendor files of the render nodes.
unfoldable pub local_gpu_count : List String → List String → ℕ
local_gpu_count nvidia vendors =
    length nvidia + length (filter (λ v. trim_space v == "0x1002") vendors)

-- The MB of a number of kB, if they are more than the floor; int division rounds a negative number up to 0 or less.
abbrev above_floor : ℤ → ℤ
above_floor (pos kb) = let mb = kb / 1024 in if ltb_ℤ (pos 1024) (pos mb) then pos mb else pos 1024
above_floor (negsuc n) = pos 1024

-- The second field; strconv.ParseInt gives a number even when it gives an error.
abbrev mem_of : (String → ℤ) → List String → ℤ
mem_of parse_int (name ∷ value ∷ rest) = above_floor (parse_int value)
mem_of parse_int _ = pos 1024

-- The loop of localMemMB, which the first line that begins with MemTotal: ends.
unfoldable pub mem_in : (String → ℤ) → List String → ℤ
mem_in parse_int [] = pos 1024
mem_in parse_int (line ∷ lines) =
    let rest = mem_in parse_int lines in
    if has_prefix line "MemTotal:" then mem_of parse_int (fields line) else rest

-- localMemMB, for /proc/meminfo if it can be read; 10 is a line break.
unfoldable pub local_mem_mb : (String → ℤ) → Option String → ℤ
unfolding mem_in
local_mem_mb parse_int none = pos 1024
local_mem_mb parse_int (some content) = mem_in parse_int (split_at 10 content)

-- Config of the package, but for the logger.
pub record Settings : Type 0 where
  pub node_name : String
  pub node_id : String
  pub bind_addr : String
  pub bind_port : ℤ
  pub advertise_addr : String
  pub bootstrap_peers : List String
  pub encrypt_key : Bytes
  pub cluster_auth_key : String
  pub tags : Map String
  pub version : String
  pub build_time : String

-- What the tags say of the machine.
pub record Machine : Type 0 where
  pub cpu : ℤ
  pub arch : String
  pub mem_mb : ℤ
  pub gpus : ℕ

-- What is set of Serf's configuration, beside its timings.
pub record SerfConfig : Type 0 where
  pub node_name : String
  pub bind_addr : String
  pub bind_port : ℤ
  pub advertise_port : ℤ
  pub advertise_addr : String
  pub secret_key : Bytes
  pub tags : Map String

-- The version tag: a dirty build names its build time.
unfoldable pub version_tag : String → String → String
version_tag version build_time =
    if contains version "-dirty" && not (build_time == "")
    then after_text (after_text version "+") build_time
    else version

-- The tags of this node.
unfoldable pub own_tags : (ℤ → String) → Codec → ClusterAuth → Machine → Settings → Map String
unfolding version_tag
own_tags itoa codec ca m cfg =
    let described = insert "arch" m.arch (
      insert "gpu" (itoa (pos m.gpus)) (
        insert "ram" (itoa m.mem_mb)
          (insert "cpu" (itoa m.cpu) (insert "node_id" cfg.node_id cfg.tags)))) in
    insert "auth" (create_compact_join_token codec ca cfg.node_id) (
      if cfg.version == ""
      then described
      else insert "ver" (version_tag cfg.version cfg.build_time) described)

unfoldable pub serf_config : (ℤ → String) → Codec → ClusterAuth → Machine → Settings → SerfConfig
serf_config itoa codec ca m cfg = record {
  node_name = cfg.node_name;
  bind_addr = if cfg.bind_addr == "" then "0.0.0.0" else cfg.bind_addr;
  bind_port = cfg.bind_port;
  advertise_port = cfg.bind_port;
  advertise_addr = cfg.advertise_addr;
  secret_key = cfg.encrypt_key;
  tags = own_tags itoa codec ca m cfg;
}

-- What stops New: the key, or Serf.
pub data CreateError : Type 0 where
  bad_auth : AuthError → CreateError
  no_serf : String → CreateError

-- The discovery layer: its Serf, its key, and the peers that it has told Serf to join.
pub record Created : Type 0 where
  pub serf : SerfConfig
  pub cluster_auth : ClusterAuth
  pub joined : List String

-- New after serf.Create, whose error is the first argument.
unfoldable pub created : Option String → SerfConfig → ClusterAuth → Settings → CreateError ⊎ Created
created (some e) serf ca cfg = inl (no_serf e)
created none serf ca cfg =
    inr (record { serf = serf; cluster_auth = ca; joined = cfg.bootstrap_peers })

-- New, where `create` is serf.Create: the error, if there is one
unfoldable pub with_auth :
    (ℤ → String)
    → Codec
    → (SerfConfig → Option String)
    → Machine
    → Settings
    → Result ClusterAuth
    → CreateError ⊎ Created
unfolding serf_config created
with_auth itoa codec create m cfg (err e) = inl (bad_auth e)
with_auth itoa codec create m cfg (ok ca) =
    let serf = serf_config itoa codec ca m cfg in created (create serf) serf ca cfg

unfoldable pub new_discovery :
    (ℤ → String) → Codec → (SerfConfig → Option String) → Machine → Settings → CreateError ⊎ Created
unfolding with_auth
new_discovery itoa codec create m cfg =
    with_auth itoa codec create m cfg (Auth.new codec cfg.cluster_auth_key)

-- handleUserEvent: every handler runs, whatever the others answer
unfoldable pub handle_user_event {ℓ} :
    {World : Type ℓ}
    → List (String → String → World → World × Option String)
    → String
    → String
    → World
    → World
handle_user_event [] name payload w = w
handle_user_event (handler ∷ handlers) name payload w =
    handle_user_event handlers name payload (handler name payload w).0
