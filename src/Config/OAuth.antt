-- ===== src/Config/OAuth.antt =====
-- Which credentials hold after the file was read: loadTailscaleOAuthConfig of
-- node/internal/config/config.go.
use cluster_os.Prelude.{
  String, ◌≡◌, refl, sym, ◌∙◌, true, false, Option, none, some, List, [], ◌∷◌, ◌==◌, arith, eq_iff,
  Bool-cases, if-both, inl, inr, false≢true, if◌then◌else◌,
}
use cluster_os.Config.{Config, or_else, set_oauth, oauth_entry, apply_entry, load_oauth}

-- The first value that is not empty.
unfoldable pub first_value : String → List String → String
first_value value [] = value
first_value value (v ∷ vs) = let rest = first_value v vs in if value == "" then rest else value

value_for : String → Option (String × String) → List String → List String
value_for key none rest = rest
value_for key (some (k, value)) rest = if k == key then value ∷ rest else rest

-- The values that the lines give to a key, in order.
unfoldable pub values_for : String → List String → List String
unfolding value_for
values_for key [] = []
values_for key (line ∷ lines) = value_for key (oauth_entry line) (values_for key lines)

first_value-or_else :
    (value old : String) (vs : List String)
    → first_value (or_else value old) vs ≡ first_value old (value ∷ vs)
unfolding first_value or_else
first_value-or_else value old [] = ground arith
first_value-or_else value old (v ∷ vs) = ground arith

-- Two of the keys are never one.
other_key : (a b key : String) → (a == b) ≡ false → (key == a) ≡ true → (key == b) ≡ false
other_key a b key h e = elim (Bool-cases (key == b)) [
  | inr f ↦ f
  | inl f ↦
      let same : (a == b) ≡ true = (eq_iff a b).1 (sym ((eq_iff key a).0 e) ∙ (eq_iff key b).0 f) in
      absurd (false≢true (sym h ∙ same))
]

-- A field follows its key: after an entry it holds the first value of the old one, the entry's if that is for
-- the key, and those that come later.
abbrev Follows : String → (Config → String) → Type 0
Follows name field =
    (e : Option (String × String)) (c : Config) (vs : List String)
    → first_value (field (apply_entry e c)) vs ≡ first_value (field c) (value_for name e vs)

id-Follows : Follows "TAILSCALE_OAUTH_CLIENT_ID" (λ c. c.oauth_client_id)
unfolding apply_entry set_oauth value_for
id-Follows none c vs = refl
id-Follows (some (key, value)) c vs =
    let old = c.oauth_client_id in
    let P = λ (d : Config).
      first_value d.oauth_client_id vs
      ≡ first_value old (if key == "TAILSCALE_OAUTH_CLIENT_ID" then value ∷ vs else vs) in
    if-both P (key == "TAILSCALE_OAUTH_CLIENT_ID") _ _
      (λ e. rw e (first_value-or_else value old vs))
      (λ e.
        if-both P (key == "TAILSCALE_OAUTH_CLIENT_SECRET") _ _ (λ f. rw e refl)
          (λ f. if-both P (key == "TAILSCALE_TAILNET") _ _ (λ g. rw e refl) (λ g. rw e refl)))

secret-Follows : Follows "TAILSCALE_OAUTH_CLIENT_SECRET" (λ c. c.oauth_client_secret)
unfolding apply_entry set_oauth value_for
secret-Follows none c vs = refl
secret-Follows (some (key, value)) c vs =
    let old = c.oauth_client_secret in
    let P = λ (d : Config).
      first_value d.oauth_client_secret vs
      ≡ first_value old (if key == "TAILSCALE_OAUTH_CLIENT_SECRET" then value ∷ vs else vs) in
    if-both P (key == "TAILSCALE_OAUTH_CLIENT_ID") _ _
      (λ e.
        rw (other_key "TAILSCALE_OAUTH_CLIENT_ID" "TAILSCALE_OAUTH_CLIENT_SECRET" key refl e) refl)
      (λ e.
        if-both P (key == "TAILSCALE_OAUTH_CLIENT_SECRET") _ _
          (λ f. rw f (first_value-or_else value old vs))
          (λ f. if-both P (key == "TAILSCALE_TAILNET") _ _ (λ g. rw f refl) (λ g. rw f refl)))

tailnet-Follows : Follows "TAILSCALE_TAILNET" (λ c. c.tailnet)
unfolding apply_entry set_oauth value_for
tailnet-Follows none c vs = refl
tailnet-Follows (some (key, value)) c vs =
    let old = c.tailnet in
    let P = λ (d : Config).
      first_value d.tailnet vs
      ≡ first_value old (if key == "TAILSCALE_TAILNET" then value ∷ vs else vs) in
    if-both P (key == "TAILSCALE_OAUTH_CLIENT_ID") _ _
      (λ e. rw (other_key "TAILSCALE_OAUTH_CLIENT_ID" "TAILSCALE_TAILNET" key refl e) refl)
      (λ e.
        if-both P (key == "TAILSCALE_OAUTH_CLIENT_SECRET") _ _
          (λ f. rw (other_key "TAILSCALE_OAUTH_CLIENT_SECRET" "TAILSCALE_TAILNET" key refl f) refl)
          (λ f.
            if-both P (key == "TAILSCALE_TAILNET") _ _
              (λ g. rw g (first_value-or_else value old vs)) (λ g. rw g refl)))

load_oauth-Follows :
    (name : String) (field : Config → String)
    → Follows name field
    → (lines : List String) (c : Config)
    → field (load_oauth lines c) ≡ first_value (field c) (values_for name lines)
unfolding load_oauth first_value values_for
load_oauth-Follows name field follows [] c = refl
load_oauth-Follows name field follows (line ∷ lines) c =
    load_oauth-Follows name field follows lines (apply_entry (oauth_entry line) c)
    ∙ follows (oauth_entry line) c (values_for name lines)

-- After the file was read each of the three credentials is the first that is not empty among the value that the
-- configuration had and the values that the lines of the file give it, in order, or empty if all are.
pub load_oauth_first :
    (lines : List String) (c : Config)
    → let after = load_oauth lines c in
      (after.oauth_client_id
        ≡ first_value c.oauth_client_id (values_for "TAILSCALE_OAUTH_CLIENT_ID" lines))
      × (after.oauth_client_secret
          ≡ first_value c.oauth_client_secret (values_for "TAILSCALE_OAUTH_CLIENT_SECRET" lines))
      × (after.tailnet ≡ first_value c.tailnet (values_for "TAILSCALE_TAILNET" lines))
load_oauth_first lines c = (
  load_oauth-Follows "TAILSCALE_OAUTH_CLIENT_ID" (λ d. d.oauth_client_id) id-Follows lines c,
  load_oauth-Follows "TAILSCALE_OAUTH_CLIENT_SECRET" (λ d. d.oauth_client_secret) secret-Follows
      lines c,
  load_oauth-Follows "TAILSCALE_TAILNET" (λ d. d.tailnet) tailnet-Follows lines c,
)
