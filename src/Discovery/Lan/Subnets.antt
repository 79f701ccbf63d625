-- ===== src/Discovery/Lan/Subnets.antt =====
-- The hosts of a subnet: expandSubnet of node/internal/discovery/lan.go.
use cluster_os.Prelude.{
  ℕ, zero, suc, ◌+◌, ◌-◌, ◌%◌, ◌^◌, ◌≤◌, ◌<◌, ◌*◌, ◌∙◌, ◌≡◌, false, ◌&&◌, some, eqb, leb, ltb, any,
  arith,
}
use cluster_os.Discovery.Lan.{expand_subnet, hosts_from}

-- No address wraps around.
hosts_from-any :
    (a base i n : ℕ)
    → base + (i + n) ≤ 2 ^ 32
    → any (eqb a) (hosts_from base i n) ≡ (leb (base + i) a && ltb a (base + (i + n)))
unfolding hosts_from any
hosts_from-any a base i zero h = ground arith
hosts_from-any a base i (suc n) h =
    let here : (base + i) % 2 ^ 32 ≡ base + i = omega arith in
    let rest = hosts_from-any a base (suc i) n (omega arith) in rw (here, rest) (ground arith)

pow_small : (h : ℕ) → 2 ≤ h → h ≤ 8 → (4 ≤ 2 ^ h) × (2 ^ h ≤ 256)
pow_small zero low high = absurd (omega arith)
pow_small (suc zero) low high = absurd (omega arith)
pow_small (suc (suc zero)) low high = (omega arith, omega arith)
pow_small (suc (suc (suc zero))) low high = (omega arith, omega arith)
pow_small (suc (suc (suc (suc zero)))) low high = (omega arith, omega arith)
pow_small (suc (suc (suc (suc (suc zero))))) low high = (omega arith, omega arith)
pow_small (suc (suc (suc (suc (suc (suc zero)))))) low high = (omega arith, omega arith)
pow_small (suc (suc (suc (suc (suc (suc (suc zero))))))) low high = (omega arith, omega arith)
pow_small (suc (suc (suc (suc (suc (suc (suc (suc zero)))))))) low high = (omega arith, omega arith)
pow_small (suc (suc (suc (suc (suc (suc (suc (suc (suc n))))))))) low high = absurd (omega arith)

hosts-any :
    (base ones a : ℕ)
    → 24 ≤ ones
    → ones ≤ 30
    → base + 2 ^ (32 - ones) ≤ 2 ^ 32
    → any (eqb a) (expand_subnet (record { ip4 = some base; ones = ones; bits = 32 }))
      ≡ (ltb base a && ltb a (base + 2 ^ (32 - ones) - 1))
unfolding expand_subnet
hosts-any base ones a low high room =
    let (some_host, few) = pow_small (32 - ones) (omega arith) (omega arith) in
    let enough : leb (2 ^ (32 - ones) - 2) 0 ≡ false = ground arith in
    let bounded : ltb 254 (2 ^ (32 - ones) - 2) ≡ false = ground arith in
    rw (enough, bounded, hosts_from-any a base 1 (2 ^ (32 - ones) - 2) (omega arith)) (ground arith)

-- expandSubnet of an IPv4 network of at most 254 and at least one usable host, given by an address that is
-- `offset` above the network address, all below 2 ^ 32: it gives exactly the addresses above the given one and
-- at most 2 ^ (32 - ones) - 2 above it. For the network address itself these are the usable hosts; for any
-- other address but the broadcast address they include the broadcast address, and miss the hosts below.
pub expand_subnet_exact :
    (network ones offset a : ℕ)
    → 24 ≤ ones
    → ones ≤ 30
    → offset < 2 ^ (32 - ones)
    → network + 2 * 2 ^ (32 - ones) ≤ 2 ^ 32
    → let size = 2 ^ (32 - ones) in
      let hosts =
        expand_subnet (record { ip4 = some (network + offset); ones = ones; bits = 32 }) in
      (any (eqb a) hosts ≡ (ltb (network + offset) a && ltb a (network + offset + size - 1)))
      × (any (eqb (network + size - 1)) hosts ≡ (ltb 0 offset && ltb offset (size - 1)))
expand_subnet_exact network ones offset a low high inside room =
    let size = 2 ^ (32 - ones) in
    let (some_host, few) = pow_small (32 - ones) (omega arith) (omega arith) in
    let all = λ (b : ℕ). hosts-any (network + offset) ones b low high (omega arith) in
    (all a, all (network + size - 1) ∙ ground arith)
