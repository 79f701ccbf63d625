-- ===== src/Daemon/Bridge/Range.antt =====
-- The range of Tailscale: isTailscaleIP of node/internal/networking/tailscale.go.
use Prim.Native.Nat.{bit_and}
use cluster_os.Prelude.{
  ℕ, zero, suc, ◌+◌, ◌*◌, ◌/◌, ◌<◌, ◌≡◌, refl, subst, sym, not, Bool, true, false, ◌&&◌, eqb, leb,
  ltb, arith, and_true, Bool-cases, inl, inr,
}
use cluster_os.Daemon.Bridge.{is_tailscale_ip}

-- A test on all the numbers below a bound.
all_below : ℕ → (ℕ → Bool) → Bool
all_below zero p = true
all_below (suc n) p = p n && all_below n p

all_below_at : (n : ℕ) (p : ℕ → Bool) (b : ℕ) → all_below n p ≡ true → b < n → p b ≡ true
unfolding all_below
all_below_at zero p b h k = absurd (omega arith)
all_below_at (suc n) p b h k = elim (Bool-cases (eqb b n)) [
  | inl e ↦
      let same : b ≡ n = ground arith in
      subst (λ x. p x ≡ true) (sym same) (and_true (p n) (all_below n p) h).0
  | inr e ↦ all_below_at n p b (and_true (p n) (all_below n p) h).1 (ground arith)
]

-- Whether two tests agree.
agree : Bool → Bool → Bool
agree true b = b
agree false b = not b

agree_equal : (a b : Bool) → agree a b ≡ true → a ≡ b
unfolding agree
agree_equal true true h = refl
agree_equal true false h = absurd (ground arith)
agree_equal false true h = absurd (ground arith)
agree_equal false false h = refl

bits_table : all_below 256 (λ b. agree (eqb (bit_and b 0xC0) 64) (leb 64 b && ltb b 128)) ≡ true
unfolding all_below agree
bits_table = refl

second_byte : (b : ℕ) → b < 256 → eqb (bit_and b 0xC0) 64 ≡ (leb 64 b && ltb b 128)
second_byte b h =
    agree_equal _ _ (
      all_below_at 256 (λ x. agree (eqb (bit_and x 0xC0) 64) (leb 64 x && ltb x 128)) b bits_table
        h)

-- isTailscaleIP tests exactly whether an IPv4 address, given by its four bytes, is in the network
-- 100.64.0.0/10, whose addresses begin with the ten bits of the number 401.
pub is_tailscale_ip_range :
    (a b c d : ℕ)
    → a < 256
    → b < 256
    → c < 256
    → d < 256
    → is_tailscale_ip a b ≡ eqb ((((a * 256 + b) * 256 + c) * 256 + d) / 4194304) 401
unfolding is_tailscale_ip
is_tailscale_ip_range a b c d ha hb hc hd = rw (second_byte b hb) (ground arith)
