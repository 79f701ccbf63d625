-- ===== src/Firewall/Open.antt =====
-- Which packets the INPUT rules of node/internal/daemon/daemon.go and
-- node/internal/services/kubernetes/k3s/server.go let in.
use mathlib.Core.Option.{some-injective}
use cluster_os.Prelude.{
  ℕ, ◌+◌, ◌<◌, String, ◌≡◌, refl, sym, ap, ◌∙◌, Bool, true, false, ◌&&◌, ◌||◌, Option, some, List,
  [], ◌∷◌, inl, inr, if◌then◌else◌, Bool-cases, length, arith,
}
use cluster_os.Firewall.Rules.{Chain, input, Rule, same_texts, has_rule, Iptables}
use cluster_os.Firewall.Scripts.{
  setup_script, setup_firewall_rules, refresh_script, refresh_firewall_rules,
}
use cluster_os.Firewall.Kept.{same_texts-eq}
use cluster_os.Firewall.Setup.{setup_after, setup_input, setup_leaves}
use cluster_os.Firewall.Refresh.{ssh, tcp_node_ports, udp_node_ports, refresh_after, refresh_leaves}

module _ {ℓ} {Packet : Type ℓ} (fits : List String → Packet → Bool) where
  -- The verdict of a chain on a packet: that of the first rule that fits, or the policy.
  unfoldable pub verdict : String → List Rule → Packet → List String
  verdict policy [] packet = policy ∷ []
  verdict policy (r ∷ rs) packet =
      let rest = verdict policy rs packet in if fits r.matches packet then r.jump else rest

  -- No arguments of the list fit the packet.
  abbrev NoneFits : List (List String) → Packet → Type 0
  NoneFits [] packet = Unit
  NoneFits (args ∷ seen) packet = (fits args packet ≡ false) × NoneFits seen packet

abbrev seen_before : List String → List (List String) → Bool
seen_before args [] = false
seen_before args (old ∷ seen) = same_texts args old || seen_before args seen

-- Whether every rule accepts, or asks what a rule before it has asked.
abbrev only_accepts : List (List String) → List Rule → Bool
only_accepts seen [] = true
only_accepts seen (r ∷ rs) =
    (same_texts r.jump ("ACCEPT" ∷ []) || seen_before r.matches seen)
    && only_accepts (r.matches ∷ seen) rs

module _ {ℓ} {Packet : Type ℓ} (fits : List String → Packet → Bool) (packet : Packet) where
  not_seen :
      (args : List String) (seen : List (List String))
      → NoneFits fits seen packet
      → seen_before args seen ≡ true
      → fits args packet ≡ false
  not_seen args [] none h = absurd (ground (arith, h))
  not_seen args (old ∷ seen) none h = elim (Bool-cases (same_texts args old)) [
    | inl k ↦ rw (same_texts-eq args old k) none.0
    | inr k ↦ not_seen args seen none.1 (ground (arith, h, k))
  ]

  accepted :
      (seen : List (List String)) (rs : List Rule)
      → NoneFits fits seen packet
      → only_accepts seen rs ≡ true
      → verdict fits "ACCEPT" rs packet ≡ "ACCEPT" ∷ []
  unfolding verdict
  accepted seen [] none h = refl
  accepted seen (r ∷ rs) none h = elim (Bool-cases (fits r.matches packet)) [
    | inl k ↦ elim (Bool-cases (same_texts r.jump ("ACCEPT" ∷ []))) [
      | inl accepts ↦ rw k (same_texts-eq r.jump ("ACCEPT" ∷ []) accepts)
      | inr other ↦
          let again = not_seen r.matches seen none (ground (arith, h, other)) in
          absurd (ground (arith, k, again))
    ]
    | inr k ↦ rw k (accepted (r.matches ∷ seen) rs (k, none) (ground (arith, h)))
  ]

set_up_accepts : only_accepts [] (setup_after input []) ≡ true
unfolding setup_after setup_script
set_up_accepts = refl

refreshed_accepts : only_accepts [] (refresh_after input (setup_after input [])) ≡ true
unfolding setup_after setup_script refresh_after refresh_script
refreshed_accepts = refl

abbrev AllOut : List Rule → List Rule → Type 0
AllOut [] rs = Unit
AllOut (q ∷ qs) rs = (has_rule q rs ≡ false) × AllOut qs rs

closed-AllOut :
    AllOut (ssh ∷ tcp_node_ports ∷ udp_node_ports ∷ []) (refresh_after input (setup_after input []))
unfolding setup_after setup_script refresh_after refresh_script
closed-AllOut = (refl, (refl, (refl, tt)))

module _ {ℓ} {Packet : Type ℓ} (ipt : Iptables) (fits : List String → Packet → Bool) where
  open ipt use {Tables, rules, policy}

  -- After setupFirewallRules and then refreshFirewallRules INPUT has no rule that accepts port 22 or the
  -- NodePorts, and yet it accepts every packet, whatever the arguments of a rule mean, as it does between the
  -- two: the policy accepts, and the rule that drops packets with an address of the tailnet asks what the rule
  -- before it has asked. The loops may go as often as a chain has rules and the functions lines.
  pub every_packet_accepted :
      (fuel fuel2 : ℕ) (writes : Bool) (defaults : Option String) (t u v : Tables) (packet : Packet)
      → ((c : Chain) → length (rules c t) + 60 < fuel)
      → (setup_firewall_rules ipt fuel writes defaults t).1 ≡ some u
      → ((c : Chain) → length (rules c u) + 60 < fuel2)
      → refresh_firewall_rules ipt fuel2 u ≡ some v
      → (verdict fits (policy input u) (rules input u) packet ≡ "ACCEPT" ∷ [])
        × (has_rule ssh (rules input v) ≡ false)
        × (has_rule tcp_node_ports (rules input v) ≡ false)
        × (has_rule udp_node_ports (rules input v) ≡ false)
        × (verdict fits (policy input v) (rules input v) packet ≡ "ACCEPT" ∷ [])
  every_packet_accepted fuel fuel2 writes defaults t u v packet short set_up short2 refreshed =
      let first = setup_leaves ipt fuel writes defaults t short in
      let is_u : first.0 ≡ u = some-injective first.0 u (sym first.1 ∙ set_up) in
      let rules_u : rules input u ≡ setup_after input [] =
        ap (rules input) (sym is_u) ∙ (first.2 input ∙ setup_input (rules input t)) in
      let policy_u : policy input u ≡ "ACCEPT" = ap (policy input) (sym is_u) ∙ first.3 in
      let second = refresh_leaves ipt fuel2 u short2 in
      let is_v : second.0 ≡ v = some-injective second.0 v (sym second.1 ∙ refreshed) in
      let rules_v : rules input v ≡ refresh_after input (setup_after input []) =
        ap (rules input) (sym is_v) ∙ (second.2 input ∙ ap (refresh_after input) rules_u) in
      let policy_v : policy input v ≡ "ACCEPT" =
        ap (policy input) (sym is_v) ∙ (second.3 ∙ policy_u) in
      (
        rw (policy_u, rules_u) (accepted fits packet [] (setup_after input []) tt set_up_accepts),
        rw rules_v closed-AllOut.0,
        rw rules_v closed-AllOut.1.0,
        rw rules_v closed-AllOut.1.1.0,
        rw (policy_v, rules_v)
            (accepted fits packet [] (refresh_after input (setup_after input [])) tt
              refreshed_accepts),
      )
