-- ===== src/K3s/Files/Kubeconfig.antt =====
-- What is left of a kubeconfig that patchKubeconfigForLocalAccess of
-- node/internal/services/kubernetes/k3s/server.go has written.
use Prim.Native.Char.{code}
use Prim.Native.String.append
use mathlib.Core.Option.{some-injective, none-ne-some}
use cluster_os.Prelude.{
  String, ◌≡◌, refl, sym, ap, Bool, true, false, ◌||◌, none, some, List, [], ◌∷◌, inl, inr,
  if◌then◌else◌, eqb, eq_refl, Bool-cases, arith,
}
use cluster_os.Prelude.Errors.{after_text}
use cluster_os.Prelude.Fields.{
  split_at, join_lines, NoSep, NoSeps, lacks-NoSep, split_at-join_lines, split_at-NoSeps,
}
use cluster_os.K3s.Files.{
  indent_of, local_server, is_server_line, patch_line, patch_lines, patch_kubeconfig,
}

-- The indentation of a line that was rewritten.
indent_of-after_text :
    (line : String) → indent_of (after_text (indent_of line) local_server) ≡ indent_of line
unfolding indent_of after_text
indent_of-after_text String.[] = refl
indent_of-after_text (String.◌∷◌ c s) = elim (Bool-cases (eqb (code c) 32 || eqb (code c) 9)) [
  | inl blank ↦
      rw (blank, append.cons c (indent_of s) local_server, blank)
        (ap (λ t. String.◌∷◌ c t) (indent_of-after_text s))
  | inr other ↦ rw (other) refl
]

rewritten_again :
    (line : String)
    → patch_line (after_text (indent_of line) local_server)
      ≡ after_text (indent_of line) local_server
unfolding patch_line
rewritten_again line =
    elim (Bool-cases (is_server_line (after_text (indent_of line) local_server))) [
      | inl server ↦ rw (server, indent_of-after_text line) refl
      | inr other ↦ rw (other) refl
    ]

-- A line that was rewritten is not changed by rewriting it again.
pub patch_line_again : (line : String) → patch_line (patch_line line) ≡ patch_line line
unfolding patch_line
patch_line_again line = elim (Bool-cases (is_server_line line)) [
  | inl server ↦ rw (patch_line, server) (rewritten_again line)
  | inr other ↦ rw (patch_line, other, other) refl
]

-- Rewriting the lines of a kubeconfig a second time changes none of them, and says so.
pub patch_lines_again :
    (lines : List String) → patch_lines (patch_lines lines).0 ≡ ((patch_lines lines).0, false)
unfolding patch_lines
patch_lines_again [] = refl
patch_lines_again (line ∷ lines) =
    rw (patch_line_again line, patch_lines_again lines, eq_refl (patch_line line)) refl

indent_of-NoSep : (line : String) → NoSep 10 (after_text (indent_of line) local_server)
unfolding indent_of after_text
indent_of-NoSep String.[] = lacks-NoSep 10 local_server refl
indent_of-NoSep (String.◌∷◌ c s) = elim (Bool-cases (eqb (code c) 32 || eqb (code c) 9)) [
  | inl blank ↦
      rw (blank, append.cons c (indent_of s) local_server) (ground arith, indent_of-NoSep s)
  | inr other ↦ rw (other) (lacks-NoSep 10 local_server refl)
]

patch_line-NoSep : (line : String) → NoSep 10 line → NoSep 10 (patch_line line)
unfolding patch_line
patch_line-NoSep line h = elim (Bool-cases (is_server_line line)) [
  | inl server ↦ rw (server) (indent_of-NoSep line)
  | inr other ↦ rw (other) h
]

patch_lines-NoSeps : (lines : List String) → NoSeps 10 lines → NoSeps 10 (patch_lines lines).0
unfolding patch_lines
patch_lines-NoSeps [] h = h
patch_lines-NoSeps (line ∷ lines) h = (patch_line-NoSep line h.0, patch_lines-NoSeps lines h.1)

changed_text :
    (changed : Bool) (text written : String)
    → (if changed then some text else none) ≡ some written
    → (changed ≡ true) × (text ≡ written)
changed_text true text written h = (refl, some-injective text written h)
changed_text false text written h = absurd (none-ne-some written h)

none_written :
    (lines : List String)
    → NoSeps 10 lines
    → (written : String)
    → (if (patch_lines lines).1 then some (join_lines (patch_lines lines).0) else none)
      ≡ some written
    → patch_kubeconfig (some written) ≡ none
unfolding patch_kubeconfig patch_lines
none_written [] n written h = absurd (none-ne-some written h)
none_written (line ∷ lines) n written h =
    let (_, same) =
      changed_text (patch_lines (line ∷ lines)).1 (join_lines (patch_lines (line ∷ lines)).0)
        written h in
    rw
      (
        sym same,
        split_at-join_lines (patch_line line) (patch_lines lines).0
            (patch_lines-NoSeps (line ∷ lines) n),
        patch_line_again line,
        patch_lines_again lines,
        eq_refl (patch_line line),
      )
      refl

-- A kubeconfig that has been rewritten is not written again.
pub kubeconfig_patched_once :
    (content written : String)
    → patch_kubeconfig (some content) ≡ some written
    → patch_kubeconfig (some written) ≡ none
unfolding patch_kubeconfig
kubeconfig_patched_once content written h =
    none_written (split_at 10 content) (split_at-NoSeps 10 content) written h
