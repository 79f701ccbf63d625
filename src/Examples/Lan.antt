-- ===== src/Examples/Lan.antt =====
-- A node that is the first host of a subnet with two.
use cluster_os.Prelude.{◌+◌, ◌-◌, ◌^◌, ◌≡◌, ◌&&◌, some, any, eqb, ltb, arith}
use cluster_os.Discovery.Lan.{expand_subnet}
use cluster_os.Discovery.Lan.Subnets.{expand_subnet_exact}

expand_subnet_exact_example :
    let hosts = expand_subnet (record { ip4 = some (3232235776 + 1); ones = 30; bits = 32 }) in
    (any (eqb 3232235778) hosts
      ≡ (ltb (3232235776 + 1) 3232235778 && ltb 3232235778 (3232235776 + 1 + 2 ^ (32 - 30) - 1)))
    × (any (eqb (3232235776 + 2 ^ (32 - 30) - 1)) hosts ≡ (ltb 0 1 && ltb 1 (2 ^ (32 - 30) - 1)))
expand_subnet_exact_example =
    expand_subnet_exact 3232235776 30 1 3232235778 (omega arith) (omega arith) (omega arith)
      (omega arith)
