-- ===== src/Daemon/Hostname/Unique.antt =====
-- Which nodes setUniqueHostname of node/internal/daemon/daemon.go gives the same name.
use Prim.Native.Char.{code}
use Prim.Native.String.{◌++◌}
use Prim.Native.String.append
use mathlib.Core.Option.{some-injective, none-ne-some}
use cluster_os.Prelude.{
  ℕ, String, ◌≡◌, refl, sym, ap, ◌∙◌, ◌↔◌, Bool, true, false, ◌||◌, Option, none, some,
  if◌then◌else◌, eqb, ◌==◌, eq_iff, arith,
}
use cluster_os.Prelude.Errors.{after_text}
use cluster_os.Prelude.Words.{cut}
use cluster_os.Prelude.Fields.{NoSep, lacks-NoSep}
use cluster_os.Daemon.Hostname.{TsIp, ipv4, Host, Outcomes, new_hostname, set_unique_hostname}

-- The three ends for an IPv4 address: already named, named now, and failed.
abbrev ended : Bool → Bool → Host → Host → Host → Host × Option String
ended same ok kept named failed =
    if same then (kept, none) else if ok then (named, none) else (failed, some "set hostname")

hostname-ended :
    (name : String) (same ok : Bool) (kept named failed : Host)
    → (same ≡ true → kept.hostname ≡ name)
    → named.hostname ≡ name
    → (ended same ok kept named failed).1 ≡ none
    → (ended same ok kept named failed).0.hostname ≡ name
hostname-ended name true ok kept named failed is_same is_named fine = is_same refl
hostname-ended name false true kept named failed is_same is_named fine = is_named
hostname-ended name false false kept named failed is_same is_named fine =
    absurd (none-ne-some "set hostname" (sym fine))

-- Without an error the hostname is the one that belongs to the address.
hostname-set_unique_hostname :
    (itoa : ℕ → String) (ip_text : TsIp → String) (o : Outcomes) (a b c d : ℕ) (h : Host)
    → (set_unique_hostname itoa ip_text o (ipv4 a b c d) h).1 ≡ none
    → (set_unique_hostname itoa ip_text o (ipv4 a b c d) h).0.hostname ≡ new_hostname itoa c d
unfolding set_unique_hostname
hostname-set_unique_hostname itoa ip_text o a b c d h fine =
    let name = new_hostname itoa c d in
    hostname-ended name (h.hostname == name) (o.hostnamectl || o.hostname_command) h _ _
      ((eq_iff h.hostname name).0) refl fine

eqb_swap : (n : ℕ) → eqb 45 n ≡ false → eqb n 45 ≡ false
eqb_swap n h = ground (arith, h)

cut-dash : (s r : String) → NoSep 45 s → cut 45 (after_text s (after_text "-" r)) ≡ some (s, r)
unfolding cut after_text
cut-dash String.[] r h = rw append.nil (rw (append.cons "-" String.[] r, append.nil) refl)
cut-dash (String.◌∷◌ c s) r h =
    rw (append.cons c s ("-" ++ r), eqb_swap (code c) h.0, cut-dash s r h.1) refl

new_hostname-injective :
    (itoa : ℕ → String)
    → ((n : ℕ) → NoSep 45 (itoa n))
    → ((m n : ℕ) → itoa m ≡ itoa n → m ≡ n)
    → (c d c2 d2 : ℕ) → new_hostname itoa c d ≡ new_hostname itoa c2 d2
    → (c ≡ c2) × (d ≡ d2)
unfolding new_hostname
new_hostname-injective itoa no_dash inj c d c2 d2 same =
    let first = some-injective _ _ (
      sym (
        cut-dash "node" (after_text (itoa c) (after_text "-" (itoa d)))
          (lacks-NoSep 45 "node" refl))
      ∙ (ap (cut 45) same
          ∙ cut-dash "node" (after_text (itoa c2) (after_text "-" (itoa d2)))
              (lacks-NoSep 45 "node" refl))) in
    let second = some-injective _ _ (
      sym (cut-dash (itoa c) (itoa d) (no_dash c))
      ∙ (ap (λ p. cut 45 p.1) first ∙ cut-dash (itoa c2) (itoa d2) (no_dash c2))) in
    (inj c c2 (ap (λ p. p.0) second), inj d d2 (ap (λ p. p.1) second))

module _ (itoa : ℕ → String) (no_dash : (n : ℕ) → NoSep 45 (itoa n))
    (itoa_injective : (m n : ℕ) → itoa m ≡ itoa n → m ≡ n) (ip_text : TsIp → String) where
  -- Two nodes that both set their hostnames without an error have the same hostname exactly when the last two
  -- bytes of their Tailscale addresses agree, if numbers are written without a dash and each in its own way.
  pub same_hostname_iff :
      (o p : Outcomes) (g h : Host) (a b c d a2 b2 c2 d2 : ℕ)
      → (set_unique_hostname itoa ip_text o (ipv4 a b c d) g).1 ≡ none
      → (set_unique_hostname itoa ip_text p (ipv4 a2 b2 c2 d2) h).1 ≡ none
      → ((set_unique_hostname itoa ip_text o (ipv4 a b c d) g).0.hostname
          ≡ (set_unique_hostname itoa ip_text p (ipv4 a2 b2 c2 d2) h).0.hostname)
        ↔ ((c ≡ c2) × (d ≡ d2))
  same_hostname_iff o p g h a b c d a2 b2 c2 d2 fine fine2 =
      let left = hostname-set_unique_hostname itoa ip_text o a b c d g fine in
      let right = hostname-set_unique_hostname itoa ip_text p a2 b2 c2 d2 h fine2 in
      (
        λ same.
            new_hostname-injective itoa no_dash itoa_injective c d c2 d2
              (sym left ∙ (same ∙ right)),
        λ e.
            left
            ∙ (ap (λ n. new_hostname itoa n d) e.0 ∙ (ap (new_hostname itoa c2) e.1 ∙ sym right)),
      )
