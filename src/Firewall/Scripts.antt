-- ===== src/Firewall/Scripts.antt =====
-- The lines of setupFirewallRules (node/internal/daemon/daemon.go) and of refreshFirewallRules
-- (node/internal/services/kubernetes/k3s/server.go), loop by loop.
use cluster_os.Prelude.{
  ℕ, String, Bool, true, false, ◌&&◌, Option, none, some, List, [], ◌∷◌, ◌++◌, if◌then◌else◌, map,
}
use cluster_os.Prelude.Words.{contains, replace_all}
use cluster_os.Firewall.Rules.{
  Chain, input, output, forward, nat_prerouting, nat_output, Rule, append, flush, set_policy, Step,
  runs, once, once_first, removes, calls, Iptables, steps,
}

abbrev pub accept : List String → Rule
accept matches = record { matches = matches; jump = "ACCEPT" ∷ [] }

abbrev pub drop : List String → Rule
drop matches = record { matches = matches; jump = "DROP" ∷ [] }

abbrev pub to_port : String → String → List String
to_port protocol number = "-p" ∷ protocol ∷ "--dport" ∷ number ∷ []

abbrev pub tailnet : List String
tailnet = "-s" ∷ "100.64.0.0/10" ∷ []

abbrev pub redirect : String × String → Rule
redirect (old, new) = record {
  matches = to_port "tcp" old;
  jump = "REDIRECT" ∷ "--to-ports" ∷ new ∷ [];
}

abbrev accepts : Chain → List String → Step
accepts c matches = runs (append c (accept matches))

abbrev established : List String
established = "-m" ∷ "conntrack" ∷ "--ctstate" ∷ "ESTABLISHED,RELATED" ∷ []

-- The INPUT chain of setupFirewallRules, after the flush of both.
unfoldable pub input_script : List Step
input_script =
    runs (flush input)
    ∷ runs (flush output)
    ∷ accepts input ("-i" ∷ "lo" ∷ [])
    ∷ accepts input established
    ∷ accepts input ("-p" ∷ "icmp" ∷ [])
    ∷ accepts input ("-i" ∷ "tailscale0" ∷ [])
    ∷ calls ("ufw" ∷ "allow" ∷ "in" ∷ "on" ∷ "tailscale0" ∷ [])
    ∷ accepts input ("-i" ∷ "ts0" ∷ [])
    ∷ calls ("ufw" ∷ "allow" ∷ "in" ∷ "on" ∷ "ts0" ∷ [])
    ∷ once input (accept tailnet)
    ∷ runs (append input (drop tailnet))
    ∷ accepts input (to_port "udp" "41641")
    ∷ accepts input (to_port "udp" "3478")
    ∷ accepts input (to_port "udp" "68")
    ∷ accepts input (to_port "tcp" "22")
    ∷ accepts input (to_port "tcp" "7946")
    ∷ accepts input (to_port "udp" "7946")
    ∷ accepts input (to_port "tcp" "80")
    ∷ accepts input (to_port "tcp" "443")
    ∷ accepts input (to_port "tcp" "30000:32767")
    ∷ accepts input (to_port "udp" "30000:32767")
    ∷ accepts input (to_port "tcp" "8090")
    ∷ []

-- The OUTPUT chain.
unfoldable pub output_script : List Step
output_script =
    accepts output ("-o" ∷ "lo" ∷ [])
    ∷ accepts output established
    ∷ accepts output ("-p" ∷ "icmp" ∷ [])
    ∷ accepts output ("-o" ∷ "tailscale0" ∷ [])
    ∷ accepts output ("-o" ∷ "ts0" ∷ [])
    ∷ accepts output (to_port "udp" "41641")
    ∷ accepts output (to_port "udp" "3478")
    ∷ accepts output (to_port "udp" "67")
    ∷ accepts output (to_port "tcp" "443")
    ∷ accepts output (to_port "tcp" "80")
    ∷ accepts output (to_port "udp" "53")
    ∷ accepts output (to_port "tcp" "53")
    ∷ accepts output (to_port "udp" "123")
    ∷ accepts output (to_port "tcp" "22")
    ∷ accepts output (to_port "tcp" "7946")
    ∷ accepts output (to_port "udp" "7946")
    ∷ []

-- The rules of the FORWARD chain.
unfoldable pub forward_rules : List Rule
forward_rules =
    accept ("-d" ∷ "10.42.0.0/16" ∷ [])
    ∷ accept ("-s" ∷ "10.42.0.0/16" ∷ [])
    ∷ accept ("-d" ∷ "10.43.0.0/16" ∷ [])
    ∷ accept ("-s" ∷ "10.43.0.0/16" ∷ [])
    ∷ accept ("-i" ∷ "cni0" ∷ [])
    ∷ accept ("-o" ∷ "cni0" ∷ [])
    ∷ accept ("-i" ∷ "flannel.1" ∷ [])
    ∷ accept ("-o" ∷ "flannel.1" ∷ [])
    ∷ accept ("-i" ∷ "flannel-wg" ∷ [])
    ∷ accept ("-o" ∷ "flannel-wg" ∷ [])
    ∷ []

-- The REDIRECT rules that older versions made, and those of now.
abbrev pub old_http : Rule
old_http = redirect ("80", "30080")

abbrev pub old_https : Rule
old_https = redirect ("443", "30443")

abbrev pub new_http : Rule
new_http = redirect ("30080", "80")

abbrev pub new_https : Rule
new_https = redirect ("30443", "443")

-- The nat table and the policies.
unfoldable pub nat_script : List Step
nat_script =
    calls ("sysctl" ∷ "-w" ∷ "net.ipv4.ip_forward=1" ∷ [])
    ∷ runs (flush nat_output)
    ∷ removes nat_prerouting old_http
    ∷ removes nat_prerouting old_https
    ∷ once nat_prerouting new_http
    ∷ once nat_output new_http
    ∷ once nat_prerouting new_https
    ∷ once nat_output new_https
    ∷ runs (set_policy input "ACCEPT")
    ∷ runs (set_policy output "ACCEPT")
    ∷ runs (set_policy forward "ACCEPT")
    ∷ []

-- The file /etc/default/ufw afterwards, and whether ufw is told to reload it.
unfoldable pub patch_ufw_defaults : Bool → Option String → Option String × Bool
patch_ufw_defaults writes none = (none, false)
patch_ufw_defaults writes (some text) =
    if contains text "DEFAULT_FORWARD_POLICY=\"DROP\"" && writes
    then (
      some (replace_all "DEFAULT_FORWARD_POLICY=\"DROP\"" "DEFAULT_FORWARD_POLICY=\"ACCEPT\"" text),
      true,
    )
    else (some text, false)

-- setupFirewallRules, where `reload` says whether the defaults of ufw were rewritten
unfoldable pub setup_script : Bool → List Step
unfolding input_script output_script forward_rules nat_script
setup_script reload =
    input_script
    ++ (output_script
        ++ (map (once forward) forward_rules
            ++ ((if reload then calls ("ufw" ∷ "reload" ∷ []) ∷ [] else []) ++ nat_script)))

unfoldable pub setup_firewall_rules :
    (ipt : Iptables) → ℕ → Bool → Option String → ipt.Tables → Option String × Option ipt.Tables
setup_firewall_rules ipt fuel writes defaults t =
    let (patched, reload) = patch_ufw_defaults writes defaults in
    (patched, steps ipt fuel (setup_script reload) t)

-- A ufw rule for a port on one of the Tailscale interfaces.
abbrev on_interface : String → String × String → Step
on_interface interface (number, protocol) = calls (
    "ufw" ∷ "allow" ∷ "in" ∷ "on" ∷ interface ∷ "to" ∷ "any" ∷ "port" ∷ number ∷ "proto" ∷ protocol
    ∷ [])

-- The loop over ports, with a rule on each of the Tailscale interfaces.
abbrev on_both : List (String × String) → List Step
on_both [] = []
on_both (r ∷ rs) = on_interface "tailscale0" r ∷ on_interface "ts0" r ∷ on_both rs

-- The ports 80 and 443, the tailnet, and the rules for port 22.
unfoldable pub public_script : List Step
public_script =
    calls ("ufw" ∷ "allow" ∷ "80/tcp" ∷ [])
    ∷ once_first input (accept (to_port "tcp" "80"))
    ∷ calls ("ufw" ∷ "allow" ∷ "443/tcp" ∷ [])
    ∷ once_first input (accept (to_port "tcp" "443"))
    ∷ calls ("ufw" ∷ "allow" ∷ "in" ∷ "on" ∷ "tailscale0" ∷ [])
    ∷ calls ("ufw" ∷ "allow" ∷ "in" ∷ "on" ∷ "ts0" ∷ [])
    ∷ once_first input (accept tailnet)
    ∷ calls ("ufw" ∷ "delete" ∷ "allow" ∷ "22/tcp" ∷ [])
    ∷ on_interface "tailscale0" ("22", "tcp")
    ∷ on_interface "ts0" ("22", "tcp")
    ∷ removes input (accept (to_port "tcp" "22"))
    ∷ []

abbrev cluster_ports : List (String × String)
cluster_ports =
    ("6443", "tcp")
    ∷ ("6444", "tcp")
    ∷ ("6817", "tcp")
    ∷ ("6818", "tcp")
    ∷ ("6819", "tcp")
    ∷ ("7476", "tcp")
    ∷ ("7946", "tcp")
    ∷ ("7946", "udp")
    ∷ ("8472", "udp")
    ∷ ("10250", "tcp")
    ∷ ("2379:2380", "tcp")
    ∷ []

abbrev node_ports : String
node_ports = "30000:32767"

-- The ports within the cluster, and the NodePorts.
unfoldable pub internal_script : List Step
internal_script =
    on_both cluster_ports
    ++ (on_both ((node_ports, "tcp") ∷ [])
        ++ (removes input (accept (to_port "tcp" node_ports))
            ∷ (on_both ((node_ports, "udp") ∷ [])
                ++ (removes input (accept (to_port "udp" node_ports)) ∷ []))))

-- The old REDIRECT rules, and the FORWARD chain.
unfoldable pub forward_script : List Step
forward_script =
    removes nat_prerouting old_http
    ∷ removes nat_output old_http
    ∷ removes nat_prerouting old_https
    ∷ removes nat_output old_https
    ∷ calls ("sysctl" ∷ "-w" ∷ "net.ipv4.ip_forward=1" ∷ [])
    ∷ once_first forward (accept ("-d" ∷ "10.42.0.0/16" ∷ []))
    ∷ once_first forward (accept ("-s" ∷ "10.42.0.0/16" ∷ []))
    ∷ once_first forward (accept ("-d" ∷ "10.43.0.0/16" ∷ []))
    ∷ once_first forward (accept ("-s" ∷ "10.43.0.0/16" ∷ []))
    ∷ calls ("ufw" ∷ "allow" ∷ "in" ∷ "on" ∷ "flannel.1" ∷ [])
    ∷ once_first forward (accept ("-i" ∷ "flannel.1" ∷ []))
    ∷ once_first forward (accept ("-o" ∷ "flannel.1" ∷ []))
    ∷ calls ("ufw" ∷ "allow" ∷ "in" ∷ "on" ∷ "cni0" ∷ [])
    ∷ once_first forward (accept ("-i" ∷ "cni0" ∷ []))
    ∷ once_first forward (accept ("-o" ∷ "cni0" ∷ []))
    ∷ []

-- refreshFirewallRules
unfoldable pub refresh_script : List Step
unfolding public_script internal_script forward_script
refresh_script = public_script ++ (internal_script ++ forward_script)

unfoldable pub refresh_firewall_rules : (ipt : Iptables) → ℕ → ipt.Tables → Option ipt.Tables
refresh_firewall_rules ipt fuel t = steps ipt fuel refresh_script t
