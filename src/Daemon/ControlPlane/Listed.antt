-- ===== src/Daemon/ControlPlane/Listed.antt =====
-- A node finds itself in the cp-servers tag exactly if the leader chose it, and the file of etcd peers
-- is read as it was written (node/internal/daemon/daemon.go).
use cluster_os.Prelude.{
  String, ◌≡◌, ◌≢◌, inl, inr, refl, sym, ap, ◌∙◌, Bool, ◌&&◌, not, none, some, List, [], ◌∷◌, ◌==◌,
  if◌then◌else◌, elem, arith, eq_iff, Bool-cases,
}
use cluster_os.Prelude.Split.{join_comma, split_comma, split-join, trim_space, NoComma, NoCommas}
use cluster_os.Daemon.ControlPlane.{
  listed, is_in_cp_list, EtcdDisk, others, write_cp_peers_file, some_unreachable,
  prune_stale_etcd_peers,
}

-- Texts with no comma and no space around them.
abbrev pub AllPlain : List String → Type 0
AllPlain [] = Unit
AllPlain (s ∷ ss) = NoComma s × (trim_space s ≡ s) × (s ≢ "") × AllPlain ss

no_commas : (ss : List String) → AllPlain ss → NoCommas ss
no_commas [] h = tt
no_commas (s ∷ ss) h = (h.0, no_commas ss h.3)

listed-elem :
    (local_ip : String) (ips : List String) → AllPlain ips → listed local_ip ips ≡ elem local_ip ips
unfolding listed elem
listed-elem local_ip [] h = refl
listed-elem local_ip (ip ∷ ips) h = ground (arith, h.1, listed-elem local_ip ips h.3)

empty-join : (ip : String) (ips : List String) → split_comma "" ≡ ip ∷ ips → ip ≡ ""
unfolding split_comma
empty-join ip ips e = cc

-- A node finds its IP in the tag that joins the leader's list exactly if it stands in the list.
pub is_in_cp_list-join :
    (local_ip ip : String) (ips : List String)
    → AllPlain (ip ∷ ips)
    → is_in_cp_list (some (join_comma (ip ∷ ips))) local_ip ≡ elem local_ip (ip ∷ ips)
unfolding is_in_cp_list
is_in_cp_list-join local_ip ip ips plain =
    let back = split-join ip ips (no_commas (ip ∷ ips) plain) in
    let found = listed-elem local_ip (ip ∷ ips) plain in
    elim (Bool-cases (join_comma (ip ∷ ips) == "")) [
      | inl e ↦
          absurd (plain.2 (empty-join ip ips (ap split_comma (sym ((eq_iff _ "").0 e)) ∙ back)))
      | inr e ↦ rw e (rw back found)
    ]

others_unreachable :
    (reachable : String → Bool) (self_ip : String) (ips : List String)
    → some_unreachable reachable self_ip (others self_ip ips)
      ≡ some_unreachable reachable self_ip ips
unfolding some_unreachable others
others_unreachable reachable self_ip [] = refl
others_unreachable reachable self_ip (ip ∷ ips) =
    ground (arith, others_unreachable reachable self_ip ips)

-- After the leader recorded its control-plane servers, the next provisioning keeps the etcd directory
-- exactly if it is there and every recorded server but the leader itself answers; the peers file goes
-- exactly if the directory is wiped.
pub prune-write_cp_peers_file :
    (reachable : String → Bool) (self_ip : String) (cp_ips : List String) (disk : EtcdDisk)
    → let written = write_cp_peers_file self_ip cp_ips disk in
      let after = prune_stale_etcd_peers reachable self_ip written in
      (after.has_etcd ≡ (disk.has_etcd && not (some_unreachable reachable self_ip cp_ips)))
      × (after.peers_file ≡ (
          if disk.has_etcd && some_unreachable reachable self_ip cp_ips
          then none
          else written.peers_file))
unfolding prune_stale_etcd_peers write_cp_peers_file
prune-write_cp_peers_file reachable self_ip cp_ips disk =
    let same = others_unreachable reachable self_ip cp_ips in
    (ground (arith, same), ground (arith, same))
