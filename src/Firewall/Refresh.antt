-- ===== src/Firewall/Refresh.antt =====
-- What refreshFirewallRules of node/internal/services/kubernetes/k3s/server.go leaves in each chain.
use cluster_os.Prelude.{
  ℕ, ◌+◌, ◌<◌, String, ◌≡◌, refl, ap, ◌∙◌, ◌&&◌, ◌||◌, not, some, List, [], ◌∷◌, length, arith,
}
use cluster_os.Firewall.Rules.{Chain, input, nat_prerouting, nat_output, Rule, has_rule, Iptables}
use cluster_os.Firewall.Scripts.{
  accept, to_port, tailnet, old_http, old_https, refresh_script, refresh_firewall_rules,
}
use cluster_os.Firewall.Lines.{without, with_first, lines_after, lines_policy}
use cluster_os.Firewall.Runs.{steps_end}
use cluster_os.Firewall.Kept.{has_rule-with_first, has_rule-without}

-- The rules that a chain has after refreshFirewallRules.
unfoldable pub refresh_after : Chain → List Rule → List Rule
refresh_after c rs = lines_after refresh_script c rs

-- The ACCEPT rules that the function makes sure of, and those that it takes away.
abbrev pub http : Rule
http = accept (to_port "tcp" "80")

abbrev pub https : Rule
https = accept (to_port "tcp" "443")

abbrev pub trusted : Rule
trusted = accept tailnet

abbrev pub ssh : Rule
ssh = accept (to_port "tcp" "22")

abbrev pub tcp_node_ports : Rule
tcp_node_ports = accept (to_port "tcp" "30000:32767")

abbrev pub udp_node_ports : Rule
udp_node_ports = accept (to_port "udp" "30000:32767")

opened : List Rule → List Rule
opened rs = with_first trusted (with_first https (with_first http rs))

closed : List Rule → List Rule
closed rs = without udp_node_ports (without tcp_node_ports (without ssh rs))

refresh_input : (rs : List Rule) → refresh_after input rs ≡ closed (opened rs)
unfolding refresh_after refresh_script opened closed
refresh_input rs = refl

refresh_nat :
    (rs : List Rule) → refresh_after nat_prerouting rs ≡ without old_https (without old_http rs)
unfolding refresh_after refresh_script
refresh_nat rs = refl

refresh_nat_output :
    (rs : List Rule) → refresh_after nat_output rs ≡ without old_https (without old_http rs)
unfolding refresh_after refresh_script
refresh_nat_output rs = refl

-- The rules of INPUT: those that were there or are made sure of, but for those that are taken away.
has_rule-input :
    (p : Rule) (rs : List Rule)
    → has_rule p (closed (opened rs)) ≡ (
        (has_rule p rs || has_rule p (http ∷ https ∷ trusted ∷ []))
        && not (has_rule p (ssh ∷ tcp_node_ports ∷ udp_node_ports ∷ [])))
unfolding opened closed
has_rule-input p rs =
    let one = with_first http rs in
    let two = with_first https one in
    let three = with_first trusted two in
    let four = without ssh three in
    let five = without tcp_node_ports four in
    ground (
      arith,
      has_rule-with_first p http rs,
      has_rule-with_first p https one,
      has_rule-with_first p trusted two,
      has_rule-without p ssh three,
      has_rule-without p tcp_node_ports four,
      has_rule-without p udp_node_ports five,
    )

-- The rules without the two old redirections.
has_rule-old :
    (p : Rule) (rs : List Rule)
    → has_rule p (without old_https (without old_http rs))
      ≡ (has_rule p rs && not (has_rule p (old_http ∷ old_https ∷ [])))
has_rule-old p rs =
    ground
      (arith, has_rule-without p old_https (without old_http rs), has_rule-without p old_http rs)

short_script : length refresh_script < 59
unfolding refresh_script
short_script = omega arith

input_policy : (old : String) → lines_policy refresh_script input old ≡ old
unfolding refresh_script
input_policy old = refl

module _ (ipt : Iptables) where
  open ipt use {Tables, rules, policy}

  -- The function ends, chain by chain.
  pub refresh_leaves :
      (fuel : ℕ) (t : Tables)
      → ((c : Chain) → length (rules c t) + 60 < fuel)
      → (u : Tables) × (refresh_firewall_rules ipt fuel t ≡ some u)
        × ((c : Chain) → rules c u ≡ refresh_after c (rules c t))
        × (policy input u ≡ policy input t)
  unfolding refresh_firewall_rules refresh_after
  refresh_leaves fuel t short =
      let ended = steps_end ipt fuel refresh_script t (λ c. omega (arith, short c, short_script)) in
      (ended.0, ended.1, ended.2, ended.3 input ∙ input_policy (policy input t))

  -- refreshFirewallRules ends, if its loops may go as often as a chain has rules and the function lines. INPUT
  -- then has exactly the rules that it had and those that accept HTTP, HTTPS and the tailnet, but not those
  -- that accept port 22 and the NodePorts; PREROUTING and OUTPUT of the nat table have the rules that they had
  -- but for the old redirections. The policy of INPUT is as before.
  pub refresh_ends :
      (fuel : ℕ) (t : Tables)
      → ((c : Chain) → length (rules c t) + 60 < fuel)
      → (u : Tables) × (refresh_firewall_rules ipt fuel t ≡ some u)
        × ((r : Rule)
            → has_rule r (rules input u) ≡ (
                (has_rule r (rules input t) || has_rule r (http ∷ https ∷ trusted ∷ []))
                && not (has_rule r (ssh ∷ tcp_node_ports ∷ udp_node_ports ∷ []))))
        × ((r : Rule)
            → has_rule r (rules nat_prerouting u) ≡ (
                has_rule r (rules nat_prerouting t)
                && not (has_rule r (old_http ∷ old_https ∷ []))))
        × ((r : Rule)
            → has_rule r (rules nat_output u)
              ≡ (has_rule r (rules nat_output t) && not (has_rule r (old_http ∷ old_https ∷ []))))
        × (policy input u ≡ policy input t)
  refresh_ends fuel t short =
      let left = refresh_leaves fuel t short in
      (
        left.0,
        left.1,
        λ r.
            ap (has_rule r) (left.2 input ∙ refresh_input (rules input t))
            ∙ has_rule-input r (rules input t),
        λ r.
            ap (has_rule r) (left.2 nat_prerouting ∙ refresh_nat (rules nat_prerouting t))
            ∙ has_rule-old r (rules nat_prerouting t),
        λ r.
            ap (has_rule r) (left.2 nat_output ∙ refresh_nat_output (rules nat_output t))
            ∙ has_rule-old r (rules nat_output t),
        left.3,
      )
