-- ===== src/Identity.antt =====
-- The identity of a node: node/internal/identity/identity.go and persistence.go. Ed25519, base58, JSON and
-- the errors of the file system are arguments; a file that is there can be found.
pub mod Stored
use cluster_os.Prelude.{
  ℕ, String, Bool, true, false, not, Option, none, some, List, ◌==◌, ◌⊎◌, inl, inr, eqb, length,
  is_some, if◌then◌else◌,
}
use cluster_os.Prelude.Maps.{Map, lookup, insert, delete}
use cluster_os.Prelude.Errors.{caused, after_text}
use cluster_os.Auth.{Bytes, bytes_eq}

pub record Identity : Type 0 where
  pub private_key : Bytes
  pub public_key : Bytes
  pub node_id : String

-- Ed25519's public half of a private key, base58, and JSON.
pub record Codecs : Type 0 where
  pub public_of : Bytes → Bytes
  pub base58_encode : Bytes → String
  pub marshal : Identity → String
  pub unmarshal : String → String ⊎ Identity

-- Generate, for the pair of keys, public and private, or the error that GenerateKey gives
unfoldable pub generate : Codecs → String ⊎ (Bytes × Bytes) → String ⊎ Identity
generate c (inl e) = inl (caused "failed to generate Ed25519 keypair" e)
generate c (inr (public, private)) =
    inr (record { private_key = private; public_key = public; node_id = c.base58_encode public })

-- Verify: the error, if there is one, without the sizes that it prints
unfoldable pub verify : Codecs → Identity → Option String
verify c i =
    if not (eqb (length i.private_key) 64)
    then some "invalid private key size"
    else if not (eqb (length i.public_key) 32)
    then some "invalid public key size"
    else if not (bytes_eq (c.public_of i.private_key) i.public_key)
    then some "public key does not match private key"
    else if not (i.node_id == c.base58_encode i.public_key)
    then some "node ID does not match public key"
    else none

-- The files, by path.
abbrev pub Files : Type 0
Files = Map String

-- DefaultIdentityPath in place of ""
unfoldable pub path_or_default : String → String
path_or_default path = if path == "" then "/var/lib/cluster-os/identity.json" else path

-- The errors of the file system; a write that fails leaves something in its file.
pub record Faults : Type 0 where
  pub dir_error : Option String
  pub write_error : Option (String × String)
  pub rename_error : Option String
  pub read_error : Option String

unfoldable pub moved : Option String → String → String → Files → Files × Option String
moved (some e) path contents files =
    (delete (after_text path ".tmp") files, some (caused "failed to rename identity file" e))
moved none path contents files =
    (insert path contents (delete (after_text path ".tmp") files), none)

unfoldable pub written :
    Option (String × String) → Faults → String → String → Files → Files × Option String
unfolding moved
written (some (e, left)) w path contents files = (
  insert (after_text path ".tmp") left files,
  some (caused (after_text "failed to write identity to " (after_text path ".tmp")) e),
)
written none w path contents files =
    moved w.rename_error path contents (insert (after_text path ".tmp") contents files)

unfoldable pub prepared :
    Option String → Codecs → Faults → String → Identity → Files → Files × Option String
unfolding written
prepared (some e) c w path i files = (files, some (caused "failed to create identity directory" e))
prepared none c w path i files = written w.write_error w path (c.marshal i) files

unfoldable pub checked :
    Option String → Codecs → Faults → String → Identity → Files → Files × Option String
unfolding prepared
checked (some e) c w path i files = (files, some (caused "identity verification failed" e))
checked none c w path i files = prepared w.dir_error c w path i files

-- Save
unfoldable pub save : Codecs → Faults → Identity → String → Files → Files × Option String
unfolding checked
save c w i path files = checked (verify c i) c w (path_or_default path) i files

unfoldable pub accepted : Option String → Identity → String ⊎ Identity
accepted (some e) i = inl (caused "loaded identity is invalid" e)
accepted none i = inr i

unfoldable pub decoded : Codecs → String ⊎ Identity → String ⊎ Identity
unfolding accepted
decoded c (inl e) = inl (caused "failed to unmarshal identity" e)
decoded c (inr i) = accepted (verify c i) i

unfoldable pub found : Codecs → Faults → String → Option String → String ⊎ Identity
unfolding decoded
found c w path none = inl (after_text "identity file does not exist: " path)
found c w path (some contents) = elim w.read_error [
  | some e ↦ inl (caused (after_text "failed to read identity file " path) e)
  | none ↦ decoded c (c.unmarshal contents)
]

-- Load
unfoldable pub load : Codecs → Faults → String → Files → String ⊎ Identity
unfolding found
load c w path files = found c w (path_or_default path) (lookup (path_or_default path) files)

-- Exists
unfoldable pub exists_at : String → Files → Bool
exists_at path files = is_some (lookup (path_or_default path) files)

-- What LoadOrGenerate returns: an error, or the identity and whether it is new.
abbrev pub Loaded : Type 0
Loaded = String ⊎ (Identity × Bool)

unfoldable pub existing : String ⊎ Identity → Loaded
existing (inl e) = inl (caused "failed to load existing identity" e)
existing (inr i) = inr (i, false)

unfoldable pub saved : Identity → Files × Option String → Files × Loaded
saved i (files, some e) = (files, inl (caused "failed to save new identity" e))
saved i (files, none) = (files, inr (i, true))

unfoldable pub fresh : Codecs → Faults → String → Files → String ⊎ Identity → Files × Loaded
unfolding saved
fresh c w path files (inl e) = (files, inl (caused "failed to generate identity" e))
fresh c w path files (inr i) = saved i (save c w i path files)

-- LoadOrGenerate, with what GenerateKey would give
unfoldable pub load_or_generate :
    Codecs → Faults → String ⊎ (Bytes × Bytes) → String → Files → Files × Loaded
unfolding existing fresh
load_or_generate c w keys path files =
    if exists_at path files
    then (files, existing (load c w path files))
    else fresh c w path files (generate c keys)

-- Delete, with the error of removing the file
unfoldable pub delete_identity : Option String → String → Files → Files × Option String
delete_identity e path files =
    if exists_at path files
    then elim e [
      | none ↦ (delete (path_or_default path) files, none)
      | some x ↦ (
        files,
        some (caused (after_text "failed to delete identity file " (path_or_default path)) x),
      )
    ]
    else (files, none)
