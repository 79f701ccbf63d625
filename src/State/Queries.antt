-- ===== src/State/Queries.antt =====
-- The queries of node/internal/state/types.go find exactly the nodes that they are asked for.
use cluster_os.Prelude.{
  String, ◌≡◌, refl, Bool, false, ◌&&◌, Option, none, some, [], ◌∷◌, ◌==◌, eq_iff, arith,
  Bool-cases, inl, inr, elem, any, filter, any-filter,
}
use cluster_os.Prelude.Maps.{Map, KeysOnce, keys, lookup, Within, Within-self}
use cluster_os.State.{
  Node, ClusterState, is_alive, values, get_node, get_alive_nodes, get_nodes_by_role,
}
use cluster_os.State.Invariant.{IsWf}

-- Whether a node is there and passes a test.
abbrev pub holds : (Node → Bool) → Option Node → Bool
holds p none = false
holds p (some n) = p n

abbrev pub has_id : String → Node → Bool
has_id id n = n.id == id

-- Every node of the map stands under its own id.
abbrev OwnIds : Map Node → Type 0
OwnIds [] = Unit
OwnIds ((k, n) ∷ m) = (n.id ≡ k) × OwnIds m

own_ids :
    (m rest : Map Node)
    → ((k : String) (n : Node) → lookup k m ≡ some n → n.id ≡ k)
    → Within m rest
    → OwnIds rest
own_ids m [] own w = tt
own_ids m ((k, n) ∷ rest) own w = (own k n w.0, own_ids m rest own w.1)

-- An id that is no key is the id of no node.
none_with :
    (id : String) (p : Node → Bool) (m : Map Node)
    → OwnIds m
    → elem id (keys m) ≡ false
    → any (λ n. p n && has_id id n) (values m) ≡ false
unfolding any values elem
none_with id p [] own h = refl
none_with id p ((k, n) ∷ m) own h =
    ground (arith, own.0, eq_iff n.id id, eq_iff k id, none_with id p m own.1)

selected :
    (p : Node → Bool) (id : String) (m : Map Node)
    → KeysOnce m
    → OwnIds m
    → any (λ n. p n && has_id id n) (values m) ≡ holds p (lookup id m)
unfolding any values lookup
selected p id [] once own = refl
selected p id ((k, n) ∷ m) once own = elim (Bool-cases (k == id)) [
  | inl e ↦ ground (arith, own.0, eq_iff n.id id, eq_iff k id, none_with id p m own.1, once.0)
  | inr e ↦ ground (arith, own.0, eq_iff n.id id, eq_iff k id, selected p id m once.1 own.1)
]

selected_exact :
    (p : Node → Bool) (cs : ClusterState) (id : String)
    → IsWf cs
    → any (has_id id) (filter p (values cs.nodes)) ≡ holds p (lookup id cs.nodes)
selected_exact p cs id w = rw any-filter (
    selected p id cs.nodes w.nodes_once
      (own_ids cs.nodes cs.nodes w.own_id (Within-self cs.nodes w.nodes_once)))

-- GetAliveNodes has a node of an id exactly if GetNode finds one with that id and it is alive.
pub get_alive_nodes_exact :
    (cs : ClusterState) (id : String)
    → IsWf cs
    → any (has_id id) (get_alive_nodes cs) ≡ holds (λ n. is_alive n.status) (get_node id cs)
unfolding get_alive_nodes get_node
get_alive_nodes_exact cs id w = selected_exact (λ n. is_alive n.status) cs id w

-- GetNodesByRole has a node of an id exactly if GetNode finds one with that id and it has the role.
pub get_nodes_by_role_exact :
    (cs : ClusterState) (role id : String)
    → IsWf cs
    → any (has_id id) (get_nodes_by_role role cs) ≡ holds (λ n. elem role n.roles) (get_node id cs)
unfolding get_nodes_by_role get_node
get_nodes_by_role_exact cs role id w = selected_exact (λ n. elem role n.roles) cs id w
