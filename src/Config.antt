-- ===== src/Config.antt =====
-- node/internal/config/config.go: the checks of Validate, what is detected of the machine, and the file with
-- the OAuth credentials. Viper, which reads the configuration, strings.ToLower, strconv.ParseInt, numbers as
-- text and the files are arguments.
pub mod OAuth
use cluster_os.Prelude.{
  ℕ, ◌+◌, ◌/◌, String, Bool, true, false, ◌&&◌, ◌||◌, not, Option, none, some, List, [], ◌∷◌, ◌==◌,
  any, if◌then◌else◌, elem,
}
use cluster_os.Prelude.Int.{ℤ, pos, ltb_ℤ}
use cluster_os.Prelude.Errors.{after_text}
use cluster_os.Prelude.Split.{trim_space}
use cluster_os.Prelude.Words.{cut, has_prefix}
use cluster_os.Prelude.Fields.{fields, split_at, trim_quotes}

-- The settings that are checked or filled in here.
pub record Config : Type 0 where
  pub auth_key : String
  pub bind_port : ℤ
  pub bootstrap_peers : List String
  pub level : String
  pub format : String
  pub cpu : ℤ
  pub ram : String
  pub gpu : Bool
  pub arch : String
  pub oauth_client_id : String
  pub oauth_client_secret : String
  pub tailnet : String

-- Validate: the error, if there is one
unfoldable pub validate : (String → String) → (ℤ → String) → Config → Option String
validate to_lower itoa c =
    if c.auth_key == "" || c.auth_key == "GENERATE_AT_BUILD_TIME"
    then some
        "cluster.auth_key is not set (still has placeholder) - run scripts/generate-cluster-key.sh and rebuild, or set CLUSTEROS_CLUSTER_AUTH_KEY"
    else if ltb_ℤ c.bind_port (pos 1) || ltb_ℤ (pos 65535) c.bind_port
    then some (after_text "invalid discovery bind port: " (itoa c.bind_port))
    else if not (elem (to_lower c.level) ("debug" ∷ "info" ∷ "warn" ∷ "error" ∷ []))
    then some (after_text "invalid logging level: " c.level)
    else if not (c.format == "json") && not (c.format == "text")
    then some
        (after_text (after_text "invalid logging format: " c.format) " (must be 'json' or 'text')")
    else none

-- IsBootstrap
unfoldable pub is_bootstrap : Config → Bool
is_bootstrap c = elim c.bootstrap_peers [ [] ↦ true | p ∷ ps ↦ false ]

-- What detectGPU finds: whether there are NVIDIA devices, and the vendor files of the render nodes.
unfoldable pub detect_gpu : Bool → List String → Bool
detect_gpu nvidia vendors = nvidia || any (λ v. trim_space v == "0x1002") vendors

-- The size that detectRAM gives for a number of kB, which is not negative.
unfoldable pub ram_text : (ℕ → String) → ℕ → String
ram_text itoa kb =
    let gb = (kb + 524288) / 1048576 in
    if ltb_ℤ (pos gb) (pos 1) then after_text (itoa (kb / 1024)) "MB" else after_text (itoa gb) "GB"

-- The second field of a line that begins with MemTotal:, if it is a number.
unfoldable pub mem_total : (String → Option ℕ) → List String → Option ℕ
mem_total parse_int (name ∷ value ∷ rest) = parse_int value
mem_total parse_int _ = none

-- The loop of detectRAM over the lines of /proc/meminfo.
unfoldable pub detect_ram : (String → Option ℕ) → (ℕ → String) → List String → String
unfolding mem_total ram_text
detect_ram parse_int itoa [] = "unknown"
detect_ram parse_int itoa (line ∷ lines) =
    let rest = detect_ram parse_int itoa lines in
    if has_prefix line "MemTotal:"
    then elim (mem_total parse_int (fields line)) [ none ↦ rest | some kb ↦ ram_text itoa kb ]
    else rest

-- What autoDetectCapabilities finds.
pub record Detected : Type 0 where
  pub num_cpu : ℤ
  pub goarch : String
  pub detected_ram : String
  pub detected_gpu : Bool

-- autoDetectCapabilities
unfoldable pub auto_detect_capabilities : Detected → Config → Config
auto_detect_capabilities d c = record c {
  cpu = if ltb_ℤ c.cpu (pos 0) || ltb_ℤ (pos 0) c.cpu then c.cpu else d.num_cpu;
  arch = if c.arch == "" then d.goarch else c.arch;
  ram = if c.ram == "" then d.detected_ram else c.ram;
  gpu = c.gpu || d.detected_gpu;
}

-- A value in place of an empty one.
unfoldable pub or_else : String → String → String
or_else value old = if old == "" then value else old

unfoldable pub set_oauth : String → String → Config → Config
unfolding or_else
set_oauth key value c =
    if key == "TAILSCALE_OAUTH_CLIENT_ID"
    then record c { oauth_client_id = or_else value c.oauth_client_id }
    else if key == "TAILSCALE_OAUTH_CLIENT_SECRET"
    then record c { oauth_client_secret = or_else value c.oauth_client_secret }
    else if key == "TAILSCALE_TAILNET"
    then record c { tailnet = or_else value c.tailnet }
    else c

-- The key and the value of a line, if it has them; 61 is "=".
unfoldable pub oauth_entry : String → Option (String × String)
oauth_entry raw =
    let line = trim_space raw in
    if line == "" || has_prefix line "#" then none else elim (cut 61 line) [
      | none ↦ none
      | some parts ↦ some (trim_space parts.0, trim_quotes (trim_space parts.1))
    ]

unfoldable pub apply_entry : Option (String × String) → Config → Config
unfolding set_oauth
apply_entry none c = c
apply_entry (some (key, value)) c = set_oauth key value c

-- The loop of loadTailscaleOAuthConfig over the lines of the file.
unfoldable pub load_oauth : List String → Config → Config
unfolding apply_entry oauth_entry
load_oauth [] c = c
load_oauth (line ∷ lines) c = load_oauth lines (apply_entry (oauth_entry line) c)
