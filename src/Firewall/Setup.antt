-- ===== src/Firewall/Setup.antt =====
-- What setupFirewallRules of node/internal/daemon/daemon.go leaves in each chain.
use mathlib.Core.Option.{some-injective}
use cluster_os.Prelude.{
  ℕ, ◌+◌, ◌<◌, String, ◌≡◌, refl, sym, ap, ◌∙◌, Bool, true, false, ◌&&◌, ◌||◌, not, Option, some,
  List, [], ◌∷◌, length, arith,
}
use cluster_os.Firewall.Rules.{
  Chain, input, output, forward, nat_prerouting, nat_output, Rule, has_rule, Iptables,
}
use cluster_os.Firewall.Scripts.{
  accept, drop, forward_rules, old_http, old_https, new_http, new_https, patch_ufw_defaults,
  setup_script, input_script, output_script, setup_firewall_rules,
}
use cluster_os.Firewall.Lines.{without, without_absent, with_last, lines_after, lines_policy}
use cluster_os.Firewall.Runs.{steps_end}
use cluster_os.Firewall.Kept.{
  with_all, with_all-AllIn, with_all_fixed, has_rule-with_all, has_rule-with_last, has_rule-without,
}

-- The rules that a chain has after setupFirewallRules, whatever ufw is told.
unfoldable pub setup_after : Chain → List Rule → List Rule
setup_after c rs = lines_after (setup_script false) c rs

pub either_reload :
    (b : Bool) (c : Chain) (rs : List Rule) → lines_after (setup_script b) c rs ≡ setup_after c rs
unfolding setup_script setup_after
either_reload true input rs = refl
either_reload true output rs = refl
either_reload true forward rs = refl
either_reload true nat_prerouting rs = refl
either_reload true nat_output rs = refl
either_reload false c rs = refl

short_script : (b : Bool) → length (setup_script b) < 61
unfolding setup_script forward_rules
short_script true = omega arith
short_script false = omega arith

-- The rules that the chains should have: traffic of this machine, connections that stand, ICMP and Tailscale;
-- the tailnet from any interface and then, in vain, not; and the ports of the cluster.
abbrev from : String → Rule
from interface = accept ("-i" ∷ interface ∷ [])

abbrev towards : String → Rule
towards interface = accept ("-o" ∷ interface ∷ [])

abbrev tcp : String → Rule
tcp number = accept ("-p" ∷ "tcp" ∷ "--dport" ∷ number ∷ [])

abbrev udp : String → Rule
udp number = accept ("-p" ∷ "udp" ∷ "--dport" ∷ number ∷ [])

abbrev standing : Rule
standing = accept ("-m" ∷ "conntrack" ∷ "--ctstate" ∷ "ESTABLISHED,RELATED" ∷ [])

abbrev icmp : Rule
icmp = accept ("-p" ∷ "icmp" ∷ [])

abbrev pub expected_input : List Rule
expected_input =
    from "lo"
    ∷ standing
    ∷ icmp
    ∷ from "tailscale0"
    ∷ from "ts0"
    ∷ accept ("-s" ∷ "100.64.0.0/10" ∷ [])
    ∷ drop ("-s" ∷ "100.64.0.0/10" ∷ [])
    ∷ udp "41641"
    ∷ udp "3478"
    ∷ udp "68"
    ∷ tcp "22"
    ∷ tcp "7946"
    ∷ udp "7946"
    ∷ tcp "80"
    ∷ tcp "443"
    ∷ tcp "30000:32767"
    ∷ udp "30000:32767"
    ∷ tcp "8090"
    ∷ []

abbrev pub expected_output : List Rule
expected_output =
    towards "lo"
    ∷ standing
    ∷ icmp
    ∷ towards "tailscale0"
    ∷ towards "ts0"
    ∷ udp "41641"
    ∷ udp "3478"
    ∷ udp "67"
    ∷ tcp "443"
    ∷ tcp "80"
    ∷ udp "53"
    ∷ tcp "53"
    ∷ udp "123"
    ∷ tcp "22"
    ∷ tcp "7946"
    ∷ udp "7946"
    ∷ []

-- To and from the addresses of pods and services, and the bridges of the pods.
abbrev pub expected_forward : List Rule
expected_forward =
    accept ("-d" ∷ "10.42.0.0/16" ∷ [])
    ∷ accept ("-s" ∷ "10.42.0.0/16" ∷ [])
    ∷ accept ("-d" ∷ "10.43.0.0/16" ∷ [])
    ∷ accept ("-s" ∷ "10.43.0.0/16" ∷ [])
    ∷ from "cni0"
    ∷ towards "cni0"
    ∷ from "flannel.1"
    ∷ towards "flannel.1"
    ∷ from "flannel-wg"
    ∷ towards "flannel-wg"
    ∷ []

-- A port from outside, and the port of the ingress that it is led to.
abbrev pub redirects : String → String → Rule
redirects number target = record {
  matches = "-p" ∷ "tcp" ∷ "--dport" ∷ number ∷ [];
  jump = "REDIRECT" ∷ "--to-ports" ∷ target ∷ [];
}

setup_input_exact : (rs : List Rule) → setup_after input rs ≡ expected_input
unfolding setup_after setup_script input_script
setup_input_exact rs = refl

setup_output_exact : (rs : List Rule) → setup_after output rs ≡ expected_output
unfolding setup_after setup_script output_script
setup_output_exact rs = refl

forward_exact : forward_rules ≡ expected_forward
unfolding forward_rules
forward_exact = refl

redirected : List Rule → List Rule
redirected rs = with_last new_https (with_last new_http (without old_https (without old_http rs)))

setup_forward : (rs : List Rule) → setup_after forward rs ≡ with_all forward_rules rs
unfolding setup_after setup_script forward_rules
setup_forward rs = refl

setup_nat : (rs : List Rule) → setup_after nat_prerouting rs ≡ redirected rs
unfolding setup_after setup_script redirected
setup_nat rs = refl

-- The rules of PREROUTING: those that were there but for the old redirections, and the new ones.
has_rule-redirected :
    (p : Rule) (rs : List Rule)
    → has_rule p (redirected rs) ≡ (
        (has_rule p rs && not (has_rule p (old_http ∷ old_https ∷ [])))
        || has_rule p (new_http ∷ new_https ∷ []))
unfolding redirected
has_rule-redirected p rs =
    let fewer = without old_http rs in
    let kept = without old_https fewer in
    let more = with_last new_http kept in
    ground (
      arith,
      has_rule-with_last p new_https more,
      has_rule-with_last p new_http kept,
      has_rule-without p old_https fewer,
      has_rule-without p old_http rs,
    )

-- Rules that have the new redirections and none of the old are not changed.
redirected_fixed :
    (rs : List Rule)
    → has_rule old_http rs ≡ false
    → has_rule old_https rs ≡ false
    → has_rule new_http rs ≡ true
    → has_rule new_https rs ≡ true
    → redirected rs ≡ rs
unfolding redirected
redirected_fixed rs a b c d =
    rw (without_absent old_http rs a, without_absent old_https rs b, c, d) refl

redirected_again : (rs : List Rule) → redirected (redirected rs) ≡ redirected rs
redirected_again rs =
    redirected_fixed (redirected rs) (has_rule-redirected old_http rs ∙ ground arith)
      (has_rule-redirected old_https rs ∙ ground arith)
      (has_rule-redirected new_http rs ∙ ground arith)
      (has_rule-redirected new_https rs ∙ ground arith)

-- The chains that are flushed do not depend on what was there.
pub setup_input : (rs : List Rule) → setup_after input rs ≡ setup_after input []
unfolding setup_after setup_script
setup_input rs = refl

setup_output : (rs : List Rule) → setup_after output rs ≡ setup_after output []
unfolding setup_after setup_script
setup_output rs = refl

setup_nat_output : (rs : List Rule) → setup_after nat_output rs ≡ new_http ∷ new_https ∷ []
unfolding setup_after setup_script
setup_nat_output rs = refl

-- The second time nothing changes.
setup_after_again :
    (c : Chain) (rs : List Rule) → setup_after c (setup_after c rs) ≡ setup_after c rs
setup_after_again input rs = setup_input (setup_after input rs) ∙ sym (setup_input rs)
setup_after_again output rs = setup_output (setup_after output rs) ∙ sym (setup_output rs)
setup_after_again forward rs = rw (setup_forward rs) (
    setup_forward (with_all forward_rules rs)
    ∙ with_all_fixed forward_rules (with_all forward_rules rs) (with_all-AllIn forward_rules rs))
setup_after_again nat_prerouting rs =
    rw (setup_nat rs) (setup_nat (redirected rs) ∙ redirected_again rs)
setup_after_again nat_output rs =
    setup_nat_output (setup_after nat_output rs) ∙ sym (setup_nat_output rs)

input_policy : (b : Bool) (old : String) → lines_policy (setup_script b) input old ≡ "ACCEPT"
unfolding setup_script
input_policy true old = refl
input_policy false old = refl

module _ (ipt : Iptables) where
  open ipt use {Tables, rules, policy}

  -- The function ends, chain by chain.
  pub setup_leaves :
      (fuel : ℕ) (writes : Bool) (defaults : Option String) (t : Tables)
      → ((c : Chain) → length (rules c t) + 60 < fuel)
      → (u : Tables) × ((setup_firewall_rules ipt fuel writes defaults t).1 ≡ some u)
        × ((c : Chain) → rules c u ≡ setup_after c (rules c t))
        × (policy input u ≡ "ACCEPT")
  unfolding setup_firewall_rules
  setup_leaves fuel writes defaults t short =
      let reload = (patch_ufw_defaults writes defaults).1 in
      let ended =
        steps_end ipt fuel (setup_script reload) t
          (λ c. omega (arith, short c, short_script reload)) in
      (
        ended.0,
        ended.1,
        λ c. ended.2 c ∙ either_reload reload c (rules c t),
        ended.3 input ∙ input_policy reload (policy input t),
      )

  -- setupFirewallRules ends, if its loops may go as often as a chain has rules and the function lines. INPUT and
  -- OUTPUT then have exactly the rules listed, in that order, whatever was there. FORWARD has exactly the rules
  -- that it had and those listed for pods. PREROUTING of the nat table has those that it had but for the
  -- redirections of 80 to 30080 and 443 to 30443, and those of 30080 to 80 and 30443 to 443; OUTPUT of the nat
  -- table has the latter two alone. The policy of INPUT is ACCEPT.
  pub setup_ends :
      (fuel : ℕ) (writes : Bool) (defaults : Option String) (t : Tables)
      → ((c : Chain) → length (rules c t) + 60 < fuel)
      → (u : Tables) × ((setup_firewall_rules ipt fuel writes defaults t).1 ≡ some u)
        × (rules input u ≡ expected_input)
        × (rules output u ≡ expected_output)
        × ((r : Rule)
            → has_rule r (rules forward u)
              ≡ (has_rule r (rules forward t) || has_rule r expected_forward))
        × ((r : Rule)
            → has_rule r (rules nat_prerouting u) ≡ (
                (has_rule r (rules nat_prerouting t)
                  && not (has_rule r (redirects "80" "30080" ∷ redirects "443" "30443" ∷ [])))
                || has_rule r (redirects "30080" "80" ∷ redirects "30443" "443" ∷ [])))
        × (rules nat_output u ≡ redirects "30080" "80" ∷ redirects "30443" "443" ∷ [])
        × (policy input u ≡ "ACCEPT")
  setup_ends fuel writes defaults t short =
      let left = setup_leaves fuel writes defaults t short in
      (
        left.0,
        left.1,
        left.2 input ∙ setup_input_exact (rules input t),
        left.2 output ∙ setup_output_exact (rules output t),
        λ r.
            ap (has_rule r) (left.2 forward ∙ setup_forward (rules forward t))
            ∙ (has_rule-with_all r forward_rules (rules forward t)
                ∙ ap (λ l. has_rule r (rules forward t) || has_rule r l) forward_exact),
        λ r.
            ap (has_rule r) (left.2 nat_prerouting ∙ setup_nat (rules nat_prerouting t))
            ∙ has_rule-redirected r (rules nat_prerouting t),
        left.2 nat_output ∙ setup_nat_output (rules nat_output t),
        left.3,
      )

  -- Setting the firewall up a second time ends too, and leaves every chain as the first time did, with the same
  -- bounds on the loops.
  pub setup_again :
      (fuel fuel2 : ℕ) (writes writes2 : Bool) (defaults defaults2 : Option String) (t u : Tables)
      → ((c : Chain) → length (rules c t) + 60 < fuel)
      → (setup_firewall_rules ipt fuel writes defaults t).1 ≡ some u
      → ((c : Chain) → length (rules c u) + 60 < fuel2)
      → (v : Tables) × ((setup_firewall_rules ipt fuel2 writes2 defaults2 u).1 ≡ some v)
        × ((c : Chain) → rules c v ≡ rules c u)
  setup_again fuel fuel2 writes writes2 defaults defaults2 t u short first short2 =
      let left = setup_leaves fuel writes defaults t short in
      let same : left.0 ≡ u = some-injective left.0 u (sym left.1 ∙ first) in
      let once_more = setup_leaves fuel2 writes2 defaults2 u short2 in
      let was : (c : Chain) → rules c u ≡ setup_after c (rules c t) =
        λ c. ap (rules c) (sym same) ∙ left.2 c in
      (
        once_more.0,
        once_more.1,
        λ c.
            once_more.2 c
            ∙ (ap (setup_after c) (was c) ∙ (setup_after_again c (rules c t) ∙ sym (was c))),
      )
