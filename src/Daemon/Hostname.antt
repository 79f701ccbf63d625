-- ===== src/Daemon/Hostname.antt =====
-- setUniqueHostname and updateHostsFile of node/internal/daemon/daemon.go. The texts of numbers and addresses
-- and what the commands return are arguments.
pub mod Unique
use cluster_os.Prelude.{ℕ, String, Bool, true, false, ◌||◌, Option, none, some, ◌==◌, if◌then◌else◌}
use cluster_os.Prelude.Errors.{after_text}
use cluster_os.Prelude.Words.{contains}

-- The Tailscale IP of the node: none, or one that To4 refuses, or the four bytes of an IPv4 address.
pub data TsIp : Type 0 where
  missing : TsIp
  not_ipv4 : TsIp
  ipv4 : ℕ → ℕ → ℕ → ℕ → TsIp

-- What is set on the machine, and the node's name in the configuration of Serf.
pub record Host : Type 0 where
  pub hostname : String
  pub etc_hostname : String
  pub etc_hosts : Option String
  pub node_name : String

-- What succeeds: writing /etc/hostname, the two commands, and opening /etc/hosts to append to it.
pub record Outcomes : Type 0 where
  pub writes : Bool
  pub hostnamectl : Bool
  pub hostname_command : Bool
  pub opens : Bool

-- fmt.Sprintf("node-%d-%d", ip4[2], ip4[3])
unfoldable pub new_hostname : (ℕ → String) → ℕ → ℕ → String
new_hostname itoa c d =
    after_text "node" (after_text "-" (after_text (itoa c) (after_text "-" (itoa d))))

-- updateHostsFile: the file afterwards
unfoldable pub update_hosts_file : Bool → String → String → Option String → Option String
update_hosts_file opens ip hostname none = none
update_hosts_file opens ip hostname (some content) =
    if contains content hostname
    then some content
    else if opens
    then some (after_text content (after_text ip (after_text "\t" (after_text hostname "\n"))))
    else some content

-- setUniqueHostname: the host afterwards, and the error, if there is one
unfoldable pub set_unique_hostname :
    (ℕ → String) → (TsIp → String) → Outcomes → TsIp → Host → Host × Option String
set_unique_hostname itoa ip_text o missing h = (h, some "no Tailscale IP")
set_unique_hostname itoa ip_text o not_ipv4 h =
    (h, some (after_text "not an IPv4 address: " (ip_text not_ipv4)))
set_unique_hostname itoa ip_text o (ipv4 a b c d) h =
    let name = new_hostname itoa c d in
    let written = record h {
      etc_hostname = if o.writes then after_text name "\n" else h.etc_hostname;
    } in
    if h.hostname == name
    then (h, none)
    else if o.hostnamectl || o.hostname_command
    then (
      record written {
        hostname = name;
        etc_hosts = update_hosts_file o.opens (ip_text (ipv4 a b c d)) name h.etc_hosts;
        node_name = name;
      },
      none,
    )
    else (written, some "set hostname")
