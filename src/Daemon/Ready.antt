-- ===== src/Daemon/Ready.antt =====
-- runReady and runPhaseMachine of node/internal/daemon/daemon.go.
pub mod Ticks
pub mod Rejoin
use cluster_os.Prelude.{
  ℕ, zero, suc, ◌+◌, String, Bool, true, false, ◌&&◌, ◌||◌, not, Option, none, some, List, [], ◌∷◌,
  ◌==◌, eqb, leb, ltb, if◌then◌else◌,
}
use cluster_os.Prelude.Maps.{Map}
use cluster_os.Discovery.Member.{Member}
use cluster_os.Daemon.Election.{extract_host, find_competing_leader}
use cluster_os.Daemon.Node.{
  Daemon, Host, joining, publish_tag, drop_tags, set_phase, stop_slurm_controller, get_leader_tag,
}

-- What a tick reads: the nodes that kubectl counts, first to tell and then to compare, Serf's members, whether a host answers on port 6443,
-- and an integer as text.
pub record Tick : Type 0 where
  pub k3s_nodes : ℕ
  pub k3s_nodes_compared : ℕ
  pub members : List Member
  pub answers : String → Bool
  pub itoa : ℕ → String

-- A ready node: the daemon, the checks in a row that did not reach its server, and whether it left.
pub record Ready : Type 0 where
  pub daemon : Daemon
  pub server_unreachable : ℕ
  pub left : Bool

-- A leader tells how many nodes it has, if it has any.
unfoldable pub tell_size : Host → Tick → Daemon → Daemon
unfolding publish_tag
tell_size host t d =
    if ltb 0 t.k3s_nodes then publish_tag host "k3s-nodes" (t.itoa t.k3s_nodes) d else d

-- A leader gives way to another.
unfoldable pub yield_to : Host → String → Daemon → Daemon
unfolding drop_tags stop_slurm_controller set_phase
yield_to host competing d =
    let told = record d { is_leader = false; leader_name = competing } in
    set_phase host joining (stop_slurm_controller (drop_tags host ("k3s-nodes" ∷ []) told))

-- A leader's part of a tick.
unfoldable pub leader_tick : Host → Tick → Ready → Ready
unfolding tell_size yield_to find_competing_leader
leader_tick host t r =
    let told = tell_size host t r.daemon in
    let competing = find_competing_leader host.node_name t.k3s_nodes_compared t.members in
    if competing == ""
    then record r { daemon = told }
    else record r { daemon = yield_to host competing told; left = true }

-- Whether the leader now names another server than the joined one.
unfoldable pub moved : String → Option String → Bool
moved joined_url none = false
moved joined_url (some url) = not (url == "") && not (url == joined_url)

abbrev pub max_unreachable : ℕ
max_unreachable = 10

-- A worker's part of a tick.
unfoldable pub worker_tick : Host → Tick → Ready → Ready
unfolding moved extract_host get_leader_tag set_phase
worker_tick host t r =
    let d = r.daemon in
    let joined_url = d.k3s_server_url in
    let rejoined = set_phase host joining d in
    let forgotten = set_phase host joining (record d { leader_name = "" }) in
    if moved joined_url (get_leader_tag "k3s-server" d.leader_name t.members)
    then record { daemon = rejoined; server_unreachable = 0; left = true }
    else if t.answers (extract_host joined_url)
    then record r { server_unreachable = 0 }
    else if leb max_unreachable (suc r.server_unreachable)
    then record { daemon = forgotten; server_unreachable = 0; left = true }
    else record r { server_unreachable = suc r.server_unreachable }

-- One tick of runReady; what a node is, is read when the tick starts.
unfoldable pub tick : Host → Tick → Ready → Ready
tick host t r =
    let d = r.daemon in
    if d.is_leader
    then leader_tick host t r
    else if not d.is_cp_server && not (d.k3s_server_url == "")
    then worker_tick host t r
    else r

-- runReady, over the ticks until the daemon is stopped; it starts with no unreachable check.
unfoldable pub ticks_from : Host → List Tick → Ready → Ready
ticks_from host [] r = r
ticks_from host (t ∷ ts) r =
    let after = tick host t r in
    let rest = ticks_from host ts after in if after.left then after else rest

unfoldable pub run_ready : Host → List Tick → Daemon → Ready
unfolding ticks_from
run_ready host ts d =
    ticks_from host ts (record { daemon = d; server_unreachable = 0; left = false })
