-- ===== src/Daemon/Startup/Local.antt =====
-- The node that Start of node/internal/daemon/daemon.go leaves in the cluster state, and its names.
use cluster_os.Prelude.{
  ℕ, String, ◌≡◌, refl, sym, ap, subst, ◌∙◌, Option, none, some, ◌⊎◌, inl, inr, if◌then◌else◌,
  eq_refl, eq_iff, Option-cases, if-both,
}
use cluster_os.Prelude.Maps.{lookup, insert, lookup-insert}
use cluster_os.State.{
  Ip, Node, ClusterState, NodeStatus, new_cluster_state, set_local_node_id, add_node, get_node,
  update_node_tailscale_ip, write, joined,
}
use cluster_os.State.Invariant.{IsWf, adds, sets_ip, sets_local, apply, apply-IsWf, new-IsWf}
use cluster_os.Networking.{Ip4, is_tailscale_available, new_tailscale_manager}
use cluster_os.Discovery.Creating.{Created}
use cluster_os.Daemon.Hostname.{TsIp, ipv4}
use cluster_os.Daemon.Startup.{
  Settled, Packages, World, Started, local_node, rename_local, networked, with_manager,
  init_networking,
}

abbrev pub address : Ip4 → TsIp
address ip = ipv4 ip.first ip.second ip.third ip.fourth

-- The name and the IP that the cluster state has of this node.
abbrev pub shown_name : Packages → String → Option Ip4 → String
shown_name p name none = name
shown_name p name (some ip) = p.ip_text (address ip)

abbrev pub shown_ip : Packages → Option Ip4 → Option Ip
shown_ip p none = none
shown_ip p (some ip) = some (p.ip_bytes ip)

-- The cluster state is that of this node, which is known and alive.
abbrev pub HasLocal : Settled → String → Option Ip → ClusterState → Type 0
HasLocal s name ip cs =
    (cs.local_node_id ≡ s.node_id)
    × (n : Node) × (lookup s.node_id cs.nodes ≡ some n)
    × (n.id ≡ s.node_id)
    × (n.status ≡ NodeStatus.alive)
    × (n.name ≡ name)
    × (n.tailscale_ip ≡ ip)

-- The cluster state before initDiscovery.
abbrev pub first_state : Settled → World → String → ClusterState
first_state s w name =
    add_node (local_node s name) w.clock w.clock (set_local_node_id s.node_id new_cluster_state)

pub first-IsWf : (s : Settled) (w : World) (name : String) → IsWf (first_state s w name)
unfolding apply
first-IsWf s w name =
    apply-IsWf (adds (local_node s name) w.clock w.clock)
      (apply-IsWf (sets_local s.node_id) new-IsWf)

pub first-HasLocal :
    (s : Settled) (w : World) (name : String) → HasLocal s name none (first_state s w name)
unfolding add_node set_local_node_id new_cluster_state local_node lookup insert joined
first-HasLocal s w name = (
  refl,
  record (local_node s name) { last_seen = w.clock; joined_at = w.clock },
  rw eq_refl refl,
  refl,
  refl,
  refl,
  refl,
)

-- Writing the node that is there.
written :
    (s : Settled) (name name2 : String) (ip ip2 : Option Ip) (f : Node → Node) (cs : ClusterState)
    → ((n : Node) → n.name ≡ name → (f n).name ≡ name2)
    → ((n : Node) → (f n).id ≡ n.id)
    → ((n : Node) → (f n).status ≡ n.status)
    → ((n : Node) → n.tailscale_ip ≡ ip → (f n).tailscale_ip ≡ ip2)
    → HasLocal s name ip cs
    → (n : Node) × (lookup s.node_id cs.nodes ≡ some n)
      × HasLocal s name2 ip2 (record cs { nodes = insert s.node_id (f n) cs.nodes })
written s name name2 ip ip2 f cs names ids statuses ips (here, n, found, id, alive, named, at) = (
  n,
  found,
  (
    here,
    f n,
    lookup-insert s.node_id s.node_id (f n) cs.nodes
        ∙ ap (λ b. if b then some (f n) else lookup s.node_id cs.nodes) (eq_refl s.node_id),
    ids n ∙ id,
    statuses n ∙ alive,
    names n named,
    ips n at,
  ),
)

ip_set :
    (s : Settled) (name : String) (ip : Option Ip) (b : Ip) (now : ℕ) (cs : ClusterState)
    → HasLocal s name ip cs
    → HasLocal s name (some b) (update_node_tailscale_ip s.node_id (some b) now cs)
unfolding update_node_tailscale_ip write
ip_set s name ip b now cs has =
    let (n, found, after) =
      written s name name ip (some b) (λ n. record n { tailscale_ip = some b; last_seen = now }) cs
        (λ n h. h) (λ n. refl) (λ n. refl) (λ n h. refl) has in
    subst (HasLocal s name (some b))
      (ap
        (λ o. elim o [
          | none ↦ cs
          | some node ↦ record cs {
            nodes =
                insert s.node_id (record node { tailscale_ip = some b; last_seen = now }) cs.nodes;
          }
        ])
        (sym found))
      after

added :
    (s : Settled) (m : Node) (now : ℕ) (cs : ClusterState)
    → cs.local_node_id ≡ s.node_id
    → m.id ≡ s.node_id
    → m.status ≡ NodeStatus.alive
    → HasLocal s m.name m.tailscale_ip (add_node m now now cs)
unfolding add_node
added s m now cs here id alive =
    let stamped : Node = record m {
      last_seen = now;
      joined_at = joined (lookup m.id cs.nodes) now;
    } in
    (
      here,
      stamped,
      lookup-insert m.id s.node_id stamped cs.nodes
          ∙ ap (λ b. if b then some stamped else lookup s.node_id cs.nodes)
              ((eq_iff m.id s.node_id).1 id),
      id,
      alive,
      refl,
      refl,
    )

renamed :
    (s : Settled) (name name2 : String) (ip : Option Ip) (now : ℕ) (cs : ClusterState)
    → HasLocal s name ip cs
    → HasLocal s name2 ip (rename_local s.node_id name2 now cs)
unfolding rename_local get_node
renamed s name name2 ip now cs (here, n, found, id, alive, named, at) =
    subst (HasLocal s name2 ip)
      (ap
        (λ o. elim o [ none ↦ cs | some node ↦ add_node (record node { name = name2 }) now now cs ])
        (sym found))
      (subst (λ i. HasLocal s name2 i (add_node (record n { name = name2 }) now now cs)) at
        (added s (record n { name = name2 }) now cs here id alive))

-- The invariant of the cluster state is kept as well.
renamed-IsWf :
    (id name : String) (now : ℕ) (cs : ClusterState) → IsWf cs → IsWf (rename_local id name now cs)
unfolding rename_local apply
renamed-IsWf id name now cs w = elim (Option-cases (get_node id cs)) [
  | inl e ↦ rw (rename_local, e) w
  | inr (n, e) ↦ rw (rename_local, e) (apply-IsWf (adds (record n { name = name }) now now) w)
]

-- What is true of a daemon that has started under a name.
abbrev pub IsLocal : Packages → Settled → String → Created → Started → Type 0
IsLocal p s name c d =
    IsWf d.cluster
    × HasLocal s (shown_name p name d.tailscale) (shown_ip p d.tailscale) d.cluster
    × (d.elector_name ≡ name)
    × (d.discovery ≡ c)

networked-IsLocal :
    (p : Packages) (s : Settled) (w : World) (name : String) (ip : Ip4) (d : Started)
    → IsWf d.cluster
    → HasLocal s name none d.cluster
    → d.elector_name ≡ name
    → IsLocal p s name d.discovery (networked p s w ip d)
unfolding networked apply
networked-IsLocal p s w name ip d wf has elected =
    let text = p.ip_text (address ip) in
    let bytes = p.ip_bytes ip in
    let known = update_node_tailscale_ip s.node_id (some bytes) w.clock d.cluster in
    (
      renamed-IsWf s.node_id text w.clock known
          (apply-IsWf (sets_ip s.node_id (some bytes) w.clock) wf),
      renamed s name text (some bytes) w.clock known
          (ip_set s name none bytes w.clock d.cluster has),
      elected,
      refl,
    )

with_manager-IsLocal :
    (p : Packages) (s : Settled) (w : World) (name : String) (r : String ⊎ Ip4) (d : Started)
    → d.tailscale ≡ none
    → IsWf d.cluster
    → HasLocal s name none d.cluster
    → d.elector_name ≡ name
    → IsLocal p s name d.discovery (with_manager p s w r d)
unfolding with_manager
with_manager-IsLocal p s w name (inl e) d offline wf has elected =
    (wf, rw offline has, elected, refl)
with_manager-IsLocal p s w name (inr ip) d offline wf has elected =
    networked-IsLocal p s w name ip d wf has elected

pub init_networking-IsLocal :
    (p : Packages) (s : Settled) (w : World) (name : String) (d : Started)
    → d.tailscale ≡ none
    → IsWf d.cluster
    → HasLocal s name none d.cluster
    → d.elector_name ≡ name
    → IsLocal p s name d.discovery (init_networking p s w d)
unfolding init_networking
init_networking-IsLocal p s w name d offline wf has elected =
    if-both (IsLocal p s name d.discovery) (is_tailscale_available w.listed)
      (with_manager p s w (new_tailscale_manager w.listed_again) d) d
      (λ h.
        with_manager-IsLocal p s w name (new_tailscale_manager w.listed_again) d offline wf has
          elected)
      (λ h. (wf, rw offline has, elected, refl))
