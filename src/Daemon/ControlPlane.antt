-- ===== src/Daemon/ControlPlane.antt =====
-- The choice of control-plane servers in node/internal/daemon/daemon.go: selectCPServers, the
-- cp-servers tag, isInCPList, and the file of etcd peers.
pub mod Quorum
pub mod Listed
use cluster_os.Prelude.{
  String, Bool, true, false, ◌&&◌, ◌||◌, not, Option, none, some, List, [], ◌∷◌, ◌++◌, ◌==◌,
  if◌then◌else◌, sort_strings, elem,
}
use cluster_os.Prelude.Split.{join_comma, split_comma, trim_space}
use cluster_os.Discovery.Member.{Member, tag, get_alive_members}
use cluster_os.Daemon.Election.{strip_dirty, version_mismatch}

-- The Tailscale IP that a member publishes, or else its address.
unfoldable pub member_ip : Member → String
unfolding tag
member_ip m = let tsip = tag "tsip" m.tags in if tsip == "" then m.addr else tsip

-- The loop of selectCPServers over the alive members.
unfoldable pub cp_extras : String → String → List Member → List String
unfolding member_ip
cp_extras my_ver local_name [] = []
cp_extras my_ver local_name (m ∷ ms) =
    let rest = cp_extras my_ver local_name ms in
    if m.name == local_name
    then rest
    else if version_mismatch my_ver m
    then rest
    else member_ip m ∷ rest

-- The first two of the sorted extras, if there are two.
unfoldable pub promoted : List String → List String
promoted [] = []
promoted (a ∷ []) = []
promoted (a ∷ b ∷ rest) = a ∷ b ∷ []

unfoldable pub select_cp_servers : String → String → String → List Member → List String
unfolding cp_extras promoted strip_dirty get_alive_members
select_cp_servers my_ip version local_name members =
    my_ip
    ∷ promoted
        (sort_strings (cp_extras (strip_dirty version) local_name (get_alive_members members)))

-- the loop of isInCPList
unfoldable pub listed : String → List String → Bool
listed local_ip [] = false
listed local_ip (ip ∷ ips) = trim_space ip == local_ip || listed local_ip ips

-- isInCPList, on the leader's cp-servers tag
unfoldable pub is_in_cp_list : Option String → String → Bool
unfolding listed
is_in_cp_list none local_ip = false
is_in_cp_list (some cp_servers) local_ip =
    if cp_servers == "" then false else listed local_ip (split_comma cp_servers)

-- What is on disk: whether the etcd directory is there, and the lines of the peers file if it is there.
pub record EtcdDisk : Type 0 where
  pub has_etcd : Bool
  pub peers_file : Option (List String)

unfoldable pub others : String → List String → List String
others self_ip [] = []
others self_ip (ip ∷ ips) =
    let rest = others self_ip ips in if ip == self_ip then rest else ip ∷ rest

-- writeCPPeersFile, where the writes succeed
unfoldable pub write_cp_peers_file : String → List String → EtcdDisk → EtcdDisk
unfolding others
write_cp_peers_file self_ip cp_ips disk = elim (others self_ip cp_ips) [
  | [] ↦ record disk { peers_file = none }
  | p ∷ ps ↦ record disk { peers_file = some (p ∷ ps) }
]

-- The loop of pruneStaleEtcdPeers: whether a peer other than this node does not answer on port 2380.
unfoldable pub some_unreachable : (String → Bool) → String → List String → Bool
some_unreachable reachable self_ip [] = false
some_unreachable reachable self_ip (peer ∷ peers) =
    (not (peer == self_ip) && not (reachable peer)) || some_unreachable reachable self_ip peers

-- pruneStaleEtcdPeers, where the removals succeed
unfoldable pub prune_stale_etcd_peers : (String → Bool) → String → EtcdDisk → EtcdDisk
unfolding some_unreachable
prune_stale_etcd_peers reachable self_ip disk =
    if not disk.has_etcd then disk else (elim disk.peers_file [
      | none ↦ disk
      | some peers ↦
          if some_unreachable reachable self_ip peers
          then record disk { has_etcd = false; peers_file = none }
          else disk
    ])
