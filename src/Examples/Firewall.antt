-- ===== src/Examples/Firewall.antt =====
-- A node with a stale redirection and a rule of its own, whose chains are lists.
use cluster_os.Prelude.{
  ◌+◌, ◌<◌, String, ◌≡◌, refl, Bool, true, false, ◌&&◌, ◌||◌, not, Option, none, some, List, [],
  ◌∷◌, arith, length,
}
use cluster_os.Firewall.Rules.{
  Chain, input, output, forward, nat_prerouting, nat_output, Rule, Command, check, has_rule,
  rules_after, policy_after, Iptables,
}
use cluster_os.Firewall.Scripts.{
  accept, forward_rules, old_http, old_https, setup_script, setup_firewall_rules,
  refresh_firewall_rules,
}
use cluster_os.Firewall.Setup.{
  expected_input, expected_output, expected_forward, redirects, setup_after, setup_leaves,
  setup_ends, setup_again,
}
use cluster_os.Firewall.Refresh.{
  http, https, trusted, ssh, tcp_node_ports, udp_node_ports, refresh_leaves, refresh_ends,
}
use cluster_os.Firewall.Open.{verdict, every_packet_accepted}

abbrev Chains : Type 0
Chains = Chain → List Rule × String

abbrev finds : Command → Chains → Bool
finds (check c r) t = has_rule r (t c).0
finds _ t = true

abbrev lists : Iptables
lists = record {
  Tables = Chains;
  run = λ cmd t. (λ c. (rules_after cmd c (t c).0, policy_after cmd c (t c).1), finds cmd t);
  call = λ args t. t;
  rules = λ c t. (t c).0;
  policy = λ c t. (t c).1;
  rules-run = λ cmd c t. refl;
  policy-run = λ cmd c t. refl;
  run-check = λ c r t. refl;
  rules-call = λ args c t. refl;
  policy-call = λ args c t. refl;
}

abbrev own : Rule
own = accept ("-i" ∷ "br0" ∷ [])

abbrev start : Chains
start input = (own ∷ [], "DROP")
start output = ([], "ACCEPT")
start forward = (own ∷ [], "DROP")
start nat_prerouting = (old_http ∷ old_http ∷ [], "ACCEPT")
start nat_output = ([], "ACCEPT")

start_short : (c : Chain) → length (start c).0 + 60 < 100
start_short input = omega arith
start_short output = omega arith
start_short forward = omega arith
start_short nat_prerouting = omega arith
start_short nat_output = omega arith

abbrev defaults : Option String
defaults = some "DEFAULT_FORWARD_POLICY=\"DROP\"\n"

set_up : Chains
set_up = (setup_leaves lists 100 true defaults start start_short).0

is_set_up : (setup_firewall_rules lists 100 true defaults start).1 ≡ some set_up
unfolding set_up
is_set_up = (setup_leaves lists 100 true defaults start start_short).1

set_up_chain : (c : Chain) → (set_up c).0 ≡ setup_after c (start c).0
unfolding set_up
set_up_chain c = (setup_leaves lists 100 true defaults start start_short).2 c

after_short : (c : Chain) → length (setup_after c (start c).0) + 60 < 100
unfolding setup_after setup_script forward_rules
after_short input = omega arith
after_short output = omega arith
after_short forward = omega arith
after_short nat_prerouting = omega arith
after_short nat_output = omega arith

set_up_short : (c : Chain) → length (set_up c).0 + 60 < 100
set_up_short c = rw (set_up_chain c) (after_short c)

refreshed : Chains
refreshed = (refresh_leaves lists 100 set_up set_up_short).0

is_refreshed : refresh_firewall_rules lists 100 set_up ≡ some refreshed
unfolding refreshed
is_refreshed = (refresh_leaves lists 100 set_up set_up_short).1

-- A packet is the arguments that fit it; this one comes from the tailnet by another interface.
abbrev fits : List String → List (List String) → Bool
fits args [] = false
fits args (p ∷ ps) = has_rule (accept args) (accept p ∷ []) || fits args ps

abbrev spoofed : List (List String)
spoofed = ("-s" ∷ "100.64.0.0/10" ∷ []) ∷ []

setup_ends_example :
    (u : Chains) × ((setup_firewall_rules lists 100 true defaults start).1 ≡ some u)
    × ((u input).0 ≡ expected_input)
    × ((u output).0 ≡ expected_output)
    × ((r : Rule)
        → has_rule r (u forward).0 ≡ (has_rule r (own ∷ []) || has_rule r expected_forward))
    × ((r : Rule)
        → has_rule r (u nat_prerouting).0 ≡ (
            (has_rule r (old_http ∷ old_http ∷ [])
              && not (has_rule r (redirects "80" "30080" ∷ redirects "443" "30443" ∷ [])))
            || has_rule r (redirects "30080" "80" ∷ redirects "30443" "443" ∷ [])))
    × ((u nat_output).0 ≡ redirects "30080" "80" ∷ redirects "30443" "443" ∷ [])
    × ((u input).1 ≡ "ACCEPT")
setup_ends_example = setup_ends lists 100 true defaults start start_short

setup_again_example :
    (v : Chains) × ((setup_firewall_rules lists 100 true none set_up).1 ≡ some v)
    × ((c : Chain) → (v c).0 ≡ (set_up c).0)
setup_again_example =
    setup_again lists 100 100 true true defaults none start set_up start_short is_set_up
      set_up_short

refresh_ends_example :
    (u : Chains) × (refresh_firewall_rules lists 100 start ≡ some u)
    × ((r : Rule)
        → has_rule r (u input).0 ≡ (
            (has_rule r (own ∷ []) || has_rule r (http ∷ https ∷ trusted ∷ []))
            && not (has_rule r (ssh ∷ tcp_node_ports ∷ udp_node_ports ∷ []))))
    × ((r : Rule)
        → has_rule r (u nat_prerouting).0
          ≡ (has_rule r (old_http ∷ old_http ∷ []) && not (has_rule r (old_http ∷ old_https ∷ []))))
    × ((r : Rule)
        → has_rule r (u nat_output).0
          ≡ (has_rule r [] && not (has_rule r (old_http ∷ old_https ∷ []))))
    × ((u input).1 ≡ "DROP")
refresh_ends_example = refresh_ends lists 100 start start_short

every_packet_accepted_example :
    (verdict fits (set_up input).1 (set_up input).0 spoofed ≡ "ACCEPT" ∷ [])
    × (has_rule ssh (refreshed input).0 ≡ false)
    × (has_rule tcp_node_ports (refreshed input).0 ≡ false)
    × (has_rule udp_node_ports (refreshed input).0 ≡ false)
    × (verdict fits (refreshed input).1 (refreshed input).0 spoofed ≡ "ACCEPT" ∷ [])
every_packet_accepted_example =
    every_packet_accepted lists fits 100 100 true defaults start set_up refreshed spoofed
      start_short is_set_up set_up_short is_refreshed
