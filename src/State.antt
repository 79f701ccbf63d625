-- ===== src/State.antt =====
-- node/internal/state/types.go: the membership that a node keeps of its cluster. The mutex makes each
-- method one step; a method takes the clock readings that it makes.
pub mod Invariant
pub mod Queries
pub mod Conflicts
use cluster_os.Prelude.{
  ℕ, String, Bool, true, false, Option, none, some, List, [], ◌∷◌, ◌==◌, if◌then◌else◌, length,
  elem, filter,
}
use cluster_os.Prelude.Int.{ℤ}
use cluster_os.Prelude.Maps.{Map, lookup, insert, delete}

-- net.IP: its bytes
abbrev pub Ip : Type 0
Ip = List ℕ

pub record Capabilities : Type 0 where
  pub cpu : ℤ
  pub ram : String
  pub gpu : Bool
  pub arch : String

-- `unset` is the empty string, the zero value of the Go type
pub data NodeStatus : Type 0 where
  unset alive leaving left failed unknown : NodeStatus

abbrev pub is_alive : NodeStatus → Bool
is_alive alive = true
is_alive _ = false

pub record Node : Type 0 where
  pub id : String
  pub name : String
  pub roles : List String
  pub capabilities : Capabilities
  pub status : NodeStatus
  pub address : String
  pub tailscale_ip : Option Ip
  pub tailscale_name : String
  pub tags : Map String
  pub last_seen : ℕ
  pub joined_at : ℕ

pub record ClusterState : Type 0 where
  pub nodes : Map Node
  pub leaders : Map String
  pub local_node_id : String

unfoldable pub new_cluster_state : ClusterState
new_cluster_state = record { nodes = []; leaders = []; local_node_id = "" }

unfoldable pub set_leader : String → String → ClusterState → ClusterState
set_leader role node_id cs = record cs { leaders = insert role node_id cs.leaders }

unfoldable pub get_leader : String → ClusterState → Option String
get_leader role cs = lookup role cs.leaders

unfoldable pub get_leader_node : String → ClusterState → Option Node
get_leader_node role cs = elim (lookup role cs.leaders) [
  | none ↦ none
  | some node_id ↦ lookup node_id cs.nodes
]

unfoldable pub remove_leader : String → ClusterState → ClusterState
remove_leader role cs = record cs { leaders = delete role cs.leaders }

unfoldable pub set_local_node_id : String → ClusterState → ClusterState
set_local_node_id node_id cs = record cs { local_node_id = node_id }

-- the time that a node joined, or now for a node that is new
unfoldable pub joined : Option Node → ℕ → ℕ
joined none now = now
joined (some existing) now = existing.joined_at

-- AddNode reads the clock for `last_seen` and, for a new node, once more for `joined_at`.
unfoldable pub add_node : Node → ℕ → ℕ → ClusterState → ClusterState
unfolding joined
add_node node seen now cs =
    let stamped = record node {
      last_seen = seen;
      joined_at = joined (lookup node.id cs.nodes) now;
    } in
    record cs { nodes = insert node.id stamped cs.nodes }

unfoldable pub remove_node : String → ClusterState → ClusterState
remove_node node_id cs = record cs { nodes = delete node_id cs.nodes }

unfoldable pub get_node : String → ClusterState → Option Node
get_node node_id cs = lookup node_id cs.nodes

values : Map Node → List Node
values [] = []
values ((id, n) ∷ m) = n ∷ values m

unfoldable pub get_all_nodes : ClusterState → List Node
unfolding values
get_all_nodes cs = values cs.nodes

unfoldable pub get_alive_nodes : ClusterState → List Node
unfolding values
get_alive_nodes cs = filter (λ n. is_alive n.status) (values cs.nodes)

unfoldable pub node_count : ClusterState → ℕ
node_count cs = length cs.nodes

-- The three updates write through the pointer that the map holds, if there is one.
unfoldable pub write : String → (Node → Node) → ClusterState → ClusterState
write node_id f cs = elim (lookup node_id cs.nodes) [
  | none ↦ cs
  | some node ↦ record cs { nodes = insert node_id (f node) cs.nodes }
]

unfoldable pub update_node_status : String → NodeStatus → ℕ → ClusterState → ClusterState
unfolding write
update_node_status node_id st now = write node_id (λ n. record n { status = st; last_seen = now })

unfoldable pub update_node_tags : String → Map String → ℕ → ClusterState → ClusterState
unfolding write
update_node_tags node_id ts now = write node_id (λ n. record n { tags = ts; last_seen = now })

unfoldable pub update_node_tailscale_ip : String → Option Ip → ℕ → ClusterState → ClusterState
unfolding write
update_node_tailscale_ip node_id ip now =
    write node_id (λ n. record n { tailscale_ip = ip; last_seen = now })

unfoldable pub get_local_node : ClusterState → Option Node
get_local_node cs = if cs.local_node_id == "" then none else lookup cs.local_node_id cs.nodes

unfoldable pub get_nodes_by_role : String → ClusterState → List Node
unfolding values
get_nodes_by_role role cs = filter (λ n. elem role n.roles) (values cs.nodes)

tailscale_ips : Map Node → Map Ip
tailscale_ips [] = []
tailscale_ips ((id, n) ∷ m) =
    let rest = tailscale_ips m in elim n.tailscale_ip [ none ↦ rest | some ip ↦ (id, ip) ∷ rest ]

unfoldable pub get_tailscale_ips : ClusterState → Map Ip
unfolding tailscale_ips
get_tailscale_ips cs = tailscale_ips cs.nodes

has_ip : (Ip → Ip → Bool) → Ip → Node → Bool
has_ip ip_equal ip n = elim n.tailscale_ip [ none ↦ false | some own ↦ ip_equal own ip ]

find_node : (Node → Bool) → List Node → Option Node
find_node p [] = none
find_node p (n ∷ ns) = if p n then some n else find_node p ns

-- net.IP's `Equal`, and below its `String`, are the package net's.
unfoldable pub get_node_by_tailscale_ip : (Ip → Ip → Bool) → Ip → ClusterState → Option Node
unfolding values find_node has_ip
get_node_by_tailscale_ip ip_equal ip cs = find_node (has_ip ip_equal ip) (values cs.nodes)

-- The loop of FindIPConflicts over the nodes that are left, with the index of the IPs seen.
ip_conflicts : (Ip → String) → Map Node → Map String → List (String × String)
ip_conflicts ip_string [] seen = []
ip_conflicts ip_string ((id, node) ∷ rest) seen = elim node.tailscale_ip [
  | none ↦ ip_conflicts ip_string rest seen
  | some ip ↦ elim (lookup (ip_string ip) seen) [
    | some first ↦ (first, id) ∷ ip_conflicts ip_string rest seen
    | none ↦ ip_conflicts ip_string rest (insert (ip_string ip) id seen)
  ]
]

unfoldable pub find_ip_conflicts : (Ip → String) → ClusterState → List (String × String)
unfolding ip_conflicts
find_ip_conflicts ip_string cs = ip_conflicts ip_string cs.nodes []
