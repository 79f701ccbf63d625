-- ===== src/Daemon/Startup/Finished.antt =====
-- What a start of node/internal/daemon/daemon.go that gives no error has set up.
use cluster_os.Prelude.{
  String, ◌≡◌, refl, sym, ap, subst, ◌∙◌, Bool, true, false, ◌==◌, Option, none, some, ◌⊎◌, inl,
  inr, false≢true,
}
use cluster_os.State.{Node, NodeStatus, get_local_node}
use cluster_os.State.Invariant.{IsWf}
use cluster_os.Discovery.Creating.{Created, CreateError, new_discovery}
use cluster_os.Discovery.Creating.Admitted.{new_discovery-node_name}
use cluster_os.Auth.{Bytes}
use cluster_os.Discovery.Display.{parse_encrypt_key}
use cluster_os.Daemon.Hostname.{Host}
use cluster_os.Daemon.Startup.{
  read_extra_disk_paths, discovery_settings, Settled, Packages, World, Started, DiscoveryError,
  initial_name, after_discovery, created_or, with_key, init_discovery, started_or, start,
}
use cluster_os.Daemon.Startup.Local.{
  shown_name, shown_ip, IsLocal, first_state, first-IsWf, first-HasLocal, init_networking-IsLocal,
}

abbrev is_right {ℓ κ} : {A : Type ℓ} {B : Type κ} → A ⊎ B → Bool
is_right (inl a) = false
is_right (inr b) = true

-- The name under which Serf knows the node.
created_or-node_name :
    (name : String) (r : CreateError ⊎ Created) (c : Created)
    → ((c : Created) → r ≡ inr c → c.serf.node_name ≡ name)
    → created_or r ≡ inr c
    → c.serf.node_name ≡ name
unfolding created_or
created_or-node_name name (inl e) c of_new h = absurd (false≢true (ap is_right h))
created_or-node_name name (inr c2) c of_new h =
    of_new c (ap (λ r. elim r [ inl e ↦ inr c2 | inr c3 ↦ inr c3 ]) h)

with_key-node_name :
    (p : Packages) (s : Settled) (w : World) (name : String) (k : String ⊎ Option Bytes)
    (c : Created)
    → with_key p s w name k ≡ inr c
    → c.serf.node_name ≡ name
unfolding with_key discovery_settings
with_key-node_name p s w name (inl e) c h = absurd (false≢true (ap is_right h))
with_key-node_name p s w name (inr key) c h =
    let cfg = discovery_settings p s name w.advertise (read_extra_disk_paths w.disks) key in
    created_or-node_name name (new_discovery p.itoa p.codec p.create w.machine cfg) c
      (new_discovery-node_name p.itoa p.codec p.create w.machine cfg) h

init_discovery-node_name :
    (p : Packages) (s : Settled) (w : World) (name : String) (c : Created)
    → init_discovery p s w name ≡ inr c
    → c.serf.node_name ≡ name
unfolding init_discovery
init_discovery-node_name p s w name c h =
    with_key-node_name p s w name (parse_encrypt_key p.count_text p.decode_key s.encrypt_key) c h

after_discovery-IsLocal :
    (p : Packages) (s : Settled) (w : World) (host : Host) (name : String) (c : Created)
    → IsLocal p s name c (after_discovery p s w host name (first_state s w name) c)
unfolding after_discovery
after_discovery-IsLocal p s w host name c =
    init_networking-IsLocal p s w name
      (record {
        cluster = first_state s w name;
        discovery = c;
        elector_name = name;
        tags = c.serf.tags;
        tailscale = none;
        host = record host { node_name = name };
        sets_firewall = false;
        finds_peers = false;
      })
      refl (first-IsWf s w name) (first-HasLocal s w name) refl

-- A start that gives a daemon has created a discovery layer.
start_from :
    (p : Packages) (s : Settled) (w : World) (host : Host) (d : Started)
    (r : DiscoveryError ⊎ Created)
    → init_discovery p s w (initial_name s w.hostname) ≡ r
    → started_or p s w host
        (initial_name s w.hostname)
        (first_state s w (initial_name s w.hostname))
        r
      ≡ inr d
    → (c : Created) × (init_discovery p s w (initial_name s w.hostname) ≡ inr c)
      × IsLocal p s (initial_name s w.hostname) c d
unfolding started_or
start_from p s w host d (inl e) made h = absurd (false≢true (ap is_right h))
start_from p s w host d (inr c) made h =
    let name = initial_name s w.hostname in
    let after = after_discovery p s w host name (first_state s w name) c in
    let same : after ≡ d = ap (λ r. elim r [ inl e ↦ after | inr d2 ↦ d2 ]) h in
    (c, made, subst (IsLocal p s name c) same (after_discovery-IsLocal p s w host name c))

-- A daemon that has started holds its own node: the cluster state is well formed and names the node as the local
-- one, and the node stands there alive under its id, with the Tailscale IP that was found and, where one was
-- found, under that IP as its name. Serf and the elector have the same name, the one that was chosen first. The
-- id is not empty.
pub start-IsLocal :
    (p : Packages) (s : Settled) (w : World) (host : Host) (d : Started)
    → (s.node_id == "") ≡ false
    → start p s w host ≡ inr d
    → IsWf d.cluster
      × ((n : Node) × (get_local_node d.cluster ≡ some n)
          × (n.id ≡ s.node_id)
          × (n.status ≡ NodeStatus.alive)
          × (n.name ≡ shown_name p (initial_name s w.hostname) d.tailscale)
          × (n.tailscale_ip ≡ shown_ip p d.tailscale))
      × (d.elector_name ≡ initial_name s w.hostname)
      × (d.discovery.serf.node_name ≡ d.elector_name)
unfolding start get_local_node
start-IsLocal p s w host d named started =
    let name = initial_name s w.hostname in
    let (c, made, (wf, (here, n, found, id, alive, called, at), elected, layer)) =
      start_from p s w host d (init_discovery p s w name) refl started in
    (
      wf,
      (n, rw (here, named) found, id, alive, called, at),
      elected,
      ap (λ (c : Created). c.serf.node_name) layer
          ∙ (init_discovery-node_name p s w name c made ∙ sym elected),
    )
