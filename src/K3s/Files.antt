-- ===== src/K3s/Files.antt =====
-- The files that node/internal/services/kubernetes/k3s/server.go reads and rewrites: the kubeconfig, the join
-- token, the certificate and the Cloudflare settings. What the files hold and the clock are arguments.
pub mod Kubeconfig
use Prim.Native.Char.{code}
use Prim.Native.String.{◌++◌}
use Prim.Native.String.append
use cluster_os.Prelude.{
  ℕ, ◌+◌, String, ◌≡◌, refl, sym, ap, ◌∙◌, Bool, true, false, ◌&&◌, ◌||◌, not, Option, none, some,
  List, [], ◌∷◌, ◌==◌, ◌⊎◌, inl, inr, if◌then◌else◌, eqb, ltb, eq_refl, Bool-cases,
}
use cluster_os.Prelude.Errors.{after_text}
use cluster_os.Prelude.Split.{trim_space}
use cluster_os.Prelude.Words.{has_prefix, contains}
use cluster_os.Prelude.Fields.{split_at, join_lines}

-- line[:len(line)-len(strings.TrimLeft(line, " \t"))]
unfoldable pub indent_of : String → String
indent_of String.[] = ""
indent_of (String.◌∷◌ c s) =
    let rest = indent_of s in if eqb (code c) 32 || eqb (code c) 9 then String.◌∷◌ c rest else ""

abbrev pub local_server : String
local_server = "server: https://127.0.0.1:6443"

-- Whether the line names the server.
unfoldable pub is_server_line : String → Bool
is_server_line line =
    let trimmed = trim_space line in
    has_prefix trimmed "server: https://" && contains trimmed ":6443"

-- What becomes of one line, in the loop of patchKubeconfigForLocalAccess.
unfoldable pub patch_line : String → String
patch_line line = if is_server_line line then after_text (indent_of line) local_server else line

-- The loop: the lines, and whether one of them changed.
unfoldable pub patch_lines : List String → List String × Bool
patch_lines [] = ([], false)
patch_lines (line ∷ lines) =
    let (patched, changed) = patch_lines lines in
    (patch_line line ∷ patched, not (patch_line line == line) || changed)

-- patchKubeconfigForLocalAccess: what it writes to the kubeconfig, if it writes
unfoldable pub patch_kubeconfig : Option String → Option String
patch_kubeconfig none = none
patch_kubeconfig (some content) =
    let (patched, changed) = patch_lines (split_at 10 content) in
    if changed then some (join_lines patched) else none

-- One turn of readFileWithDeadline: the clock before it, and what the file holds, if it can be read.
pub record Look : Type 0 where
  pub now : ℕ
  pub file : Option String

-- The loop of readFileWithDeadline; the turns that are not listed are after the deadline.
unfoldable pub read_until : ℕ → String → List Look → String ⊎ String
read_until deadline failed [] = inl failed
read_until deadline failed (look ∷ looks) =
    let rest = read_until deadline failed looks in
    if ltb look.now deadline
    then elim look.file [ none ↦ rest | some content ↦ if content == "" then rest else inr content ]
    else inl failed

-- ReadToken, from a start of the clock in seconds
unfoldable pub read_token : String → ℕ → List Look → String ⊎ String
read_token token_path start looks =
    let failed = after_text "K3s token not available after 60s at " token_path in
    elim (read_until (start + 60) failed looks) [
      | inl failed ↦ inl failed
      | inr content ↦ inr (trim_space content)
    ]

-- ReadCACert
unfoldable pub read_ca_cert : String → ℕ → List Look → String ⊎ String
read_ca_cert ca_path start looks =
    read_until (start + 30) (after_text "cluster CA cert not available after 30s at " ca_path) looks

-- indentBlock
unfoldable pub indent_lines : String → List String → String
indent_lines prefix [] = ""
indent_lines prefix (line ∷ lines) =
    let rest = indent_lines prefix lines in
    if line == ""
    then after_text "\n" rest
    else after_text (after_text prefix line) (after_text "\n" rest)

unfoldable pub indent_block : String → String → String
indent_block s prefix = indent_lines prefix (split_at 10 s)
