-- ===== src/Examples/State.antt =====
-- node/internal/state/types.go on two nodes that share an IP.
use cluster_os.Prelude.{String, ◌≢◌, false, some, List, [], ◌∷◌, false≢true, eq_iff}
use cluster_os.Prelude.Int.{pos}
use cluster_os.State.{Ip, Node, ClusterState, NodeStatus, new_cluster_state}
use cluster_os.State.Invariant.{Op, adds, removes, sets_status, run, IsWf, new-IsWf, run-IsWf}

abbrev node : String → List String → Node
node id roles = record {
  id = id;
  name = id;
  roles = roles;
  capabilities = record { cpu = pos 4; ram = ""; gpu = false; arch = "amd64" };
  status = NodeStatus.alive;
  address = "192.168.1.2";
  tailscale_ip = some (100 ∷ 64 ∷ 0 ∷ 1 ∷ []);
  tailscale_name = "";
  tags = [];
  last_seen = 0;
  joined_at = 0;
}

abbrev history : List Op
history =
    adds (node "a" ("worker" ∷ [])) 5 5
    ∷ adds (node "b" []) 6 6
    ∷ sets_status "b" NodeStatus.failed 7
    ∷ adds (node "a" ("worker" ∷ [])) 8 8
    ∷ []

abbrev cluster : ClusterState
cluster = run history new_cluster_state

-- The address as text, where all that is asked is whether there is one.
abbrev ip_string : Ip → String
ip_string ip = "100.64.0.1"

run-IsWf_example : IsWf cluster
run-IsWf_example = run-IsWf history new_cluster_state new-IsWf

abbrev rejoins : List Op
rejoins = adds (node "a" []) 8 8 ∷ sets_status "a" NodeStatus.failed 9 ∷ removes "b" ∷ []

abbrev id_a : String
id_a = "a"

abbrev id_b : String
id_b = "b"

a_is_not_b : id_a ≢ id_b
a_is_not_b e = false≢true ((eq_iff id_a id_b).1 e)
