-- ===== src/Examples/ControlPlane.antt =====
-- selectCPServers, the cp-servers tag, the etcd peers and the worker list on four members.
use cluster_os.Prelude.{
  String, ◌≡◌, ◌≢◌, refl, sym, ◌∙◌, Bool, true, false, not, none, some, List, [], ◌∷◌, ◌==◌, length,
  leb, filter, sort_strings, if◌then◌else◌, false≢true, eq_iff,
}
use cluster_os.Prelude.Maps.{lookup}
use cluster_os.Prelude.Split.{trim_space, NoComma}
use cluster_os.Discovery.Member.{Member, alive}
use cluster_os.Daemon.Election.{version_mismatch}
use cluster_os.Daemon.ControlPlane.{select_cp_servers, EtcdDisk}
use cluster_os.Daemon.ControlPlane.Quorum.{extras, chosen, length-select_cp_servers}
use cluster_os.Daemon.Workers.{Disks, Tick}

abbrev peer : String → String → Member
peer name ip = record {
  name = name;
  addr = ip;
  port = 7946;
  status = alive;
  tags = ("ver", "v1") ∷ ("phase", "ready") ∷ ("cpu", "8") ∷ [];
}

abbrev members : List Member
members = peer "a" "10.0.0.1" ∷ peer "b" "10.0.0.4" ∷ peer "c" "10.0.0.3" ∷ peer "d" "10.0.0.2" ∷ []

length-select_cp_servers_example :
    length (chosen "10.0.0.1" "v1" "a" members)
    ≡ (if leb 2 (length (extras "10.0.0.1" "v1" "a" members)) then 3 else 1)
length-select_cp_servers_example = length-select_cp_servers "10.0.0.1" "v1" "a" members

-- The two lowest of the other three are chosen.
chosen_test :
    select_cp_servers "10.0.0.1" "v1" "a" members ≡ "10.0.0.1" ∷ "10.0.0.2" ∷ "10.0.0.3" ∷ []
unfolding select_cp_servers sort_strings filter version_mismatch lookup
chosen_test = refl

abbrev ips : List String
ips = "h2" ∷ "h3" ∷ []

plain_name :
    (s : String)
    → NoComma s
    → trim_space s ≡ s
    → (s == "") ≡ false
    → NoComma s × (trim_space s ≡ s) × (s ≢ "")
plain_name s n t f = (n, t, λ e. false≢true (sym f ∙ (eq_iff s "").1 e))

abbrev disk : EtcdDisk
disk = record { has_etcd = true; peers_file = none }

abbrev reachable : String → Bool
reachable ip = not (ip == "h3")

abbrev disks : Disks
disks n = some 1000

abbrev tick : Tick
tick = record { cancelled = false; has_ctrl = true; members = members }
