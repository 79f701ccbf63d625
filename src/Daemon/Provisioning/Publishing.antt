-- ===== src/Daemon/Provisioning/Publishing.antt =====
-- How runProvisioning (node/internal/daemon/daemon.go) ends.
use cluster_os.Prelude.{
  String, ◌≡◌, ◌⊎◌, inl, inr, refl, ◌∙◌, true, Option, none, some, Option-cases,
}
use cluster_os.Prelude.Maps.{lookup, lookup-insert}
use cluster_os.Auth.{Bytes}
use cluster_os.State.{set_leader}
use cluster_os.Daemon.ControlPlane.{select_cp_servers, prune_stale_etcd_peers}
use cluster_os.Daemon.Slurm.{wrap, start_controller}
use cluster_os.Daemon.Node.{
  Daemon, Host, k3s_server, ready, drop_tags, publish_tag, register_role, unregister_role,
}
use cluster_os.Daemon.Provisioning.{
  Answers, try_publish, publish_cluster_ready, choose_munge_key, finish, start_slurm, with_key,
  with_token, with_api, with_server, run_provisioning,
}

-- A daemon that leads a ready cluster.
abbrev pub Leads : Host → Answers → Daemon → Type 0
Leads host w d =
    (d.phase ≡ ready)
    × (d.is_cp_server ≡ true)
    × (d.slurm_ctrl ≡ true)
    × (d.cp_servers ≡ select_cp_servers w.node_ip host.version host.node_name w.members)
    × (lookup "k3s-server" d.cluster_state.leaders ≡ some host.node_id)
    × (lookup "slurm-controller" d.cluster_state.leaders ≡ some host.node_id)

-- A daemon that provisioning has left in its phase and its place.
abbrev pub Unchanged : Daemon → Daemon → Type 0
Unchanged d after =
    (after.phase ≡ d.phase)
    × (after.is_cp_server ≡ d.is_cp_server)
    × (after.slurm_ctrl ≡ d.slurm_ctrl)
    × (after.retrying ≡ d.retrying)

-- What holds after a step with an error, and after one without.
abbrev pub Ends : Host → Answers → Daemon → Daemon × Option String → Type 0
Ends host w d (after, none) = Leads host w after × (after.is_leader ≡ d.is_leader)
Ends host w d (after, some e) = Unchanged d after × (after.is_leader ≡ d.is_leader)

finish_leads :
    (host : Host) (w : Answers) (tok : String) (key : Bytes) (d : Daemon)
    → lookup "k3s-server" d.cluster_state.leaders ≡ some host.node_id
    → lookup "slurm-controller" d.cluster_state.leaders ≡ some host.node_id
    → Ends host w d (finish host w tok key d, none)
unfolding finish publish_cluster_ready try_publish register_role drop_tags
finish_leads host w tok key d k s = ((refl, refl, refl, refl, k, s), refl)

start_slurm-Ends :
    (host : Host) (w : Answers) (tok : String) (key : Bytes) (d : Daemon)
    → lookup "k3s-server" d.cluster_state.leaders ≡ some host.node_id
    → Ends host w d (start_slurm host w tok key d)
unfolding start_slurm publish_tag register_role set_leader
start_slurm-Ends host w tok key d k =
    elim (Option-cases
      (wrap "start slurm controller" (start_controller w.ctrl key d.munge_file).1)) [
        | inl e ↦
            let leaders = d.cluster_state.leaders in
            rw (e, start_slurm)
              (finish_leads host w tok key _
                (lookup-insert "slurm-controller" "k3s-server" host.node_id leaders ∙ k)
                (lookup-insert "slurm-controller" "slurm-controller" host.node_id leaders))
        | inr (x, e) ↦ rw (e, start_slurm) ((refl, refl, refl, refl), refl)
      ]

with_key-Ends :
    (host : Host) (w : Answers) (tok : String) (chosen : String ⊎ Bytes) (d : Daemon)
    → lookup "k3s-server" d.cluster_state.leaders ≡ some host.node_id
    → Ends host w d (with_key host w tok chosen d)
unfolding with_key
with_key-Ends host w tok (inl e) d k = ((refl, refl, refl, refl), refl)
with_key-Ends host w tok (inr key) d k = start_slurm-Ends host w tok key d k

-- What a step changes besides the phase, the place and the retries does not matter for how it ends.
Ends-from :
    (host : Host) (w : Answers) (d middle : Daemon) (o : Daemon × Option String)
    → Unchanged d middle
    → middle.is_leader ≡ d.is_leader
    → Ends host w middle o
    → Ends host w d o
Ends-from host w d middle (after, none) u l ends = (ends.0, ends.1 ∙ l)
Ends-from host w d middle (after, some e) u l ends =
    ((ends.0.0 ∙ u.0, ends.0.1 ∙ u.1, ends.0.2 ∙ u.2, ends.0.3 ∙ u.3), ends.1 ∙ l)

with_token-Ends :
    (host : Host) (w : Answers) (tok : String ⊎ String) (d : Daemon)
    → Ends host w d (with_token host w tok d)
unfolding with_token set_leader
with_token-Ends host w (inl e) d = ((refl, refl, refl, refl), refl)
with_token-Ends host w (inr tok) d =
    let led = record d { cluster_state = set_leader "k3s-server" host.node_id d.cluster_state } in
    let chosen = choose_munge_key host w led in
    let kept = record led { munge_file = chosen.1 } in
    Ends-from host w d kept (with_key host w tok chosen.0 kept) (refl, refl, refl, refl) refl
      (with_key-Ends host w tok chosen.0 kept
        (lookup-insert "k3s-server" "k3s-server" host.node_id d.cluster_state.leaders))

with_api-Ends :
    (host : Host) (w : Answers) (error : Option String) (d : Daemon)
    → Ends host w d (with_api host w error d)
unfolding with_api
with_api-Ends host w (some e) d = ((refl, refl, refl, refl), refl)
with_api-Ends host w none d = with_token-Ends host w w.token d

with_server-Ends :
    (host : Host) (w : Answers) (error : Option String) (d : Daemon)
    → Ends host w d (with_server host w error d)
unfolding with_server register_role
with_server-Ends host w (some e) d = ((refl, refl, refl, refl), refl)
with_server-Ends host w none d =
    let served = register_role "k3s-server" (k3s_server w.node_ip) d in
    Ends-from host w d served (with_api host w w.api_error served) (refl, refl, refl, refl) refl
      (with_api-Ends host w w.api_error served)

-- Provisioning without an error ends ready: the node serves the control plane and runs the SLURM
-- controller, the cluster state names it as the leader of both, and its control-plane list is the
-- selected one. With an error the phase, the node's place and what is still to be published are as
-- before. Whether the node leads is as before in both.
pub run_provisioning-Ends :
    (host : Host) (w : Answers) (d : Daemon) → Ends host w d (run_provisioning host w d)
unfolding run_provisioning unregister_role
run_provisioning-Ends host w d =
    let cleared = unregister_role "slurm-worker" (unregister_role "k3s-agent" d) in
    let etcd = prune_stale_etcd_peers w.etcd_reachable w.node_ip cleared.etcd in
    let pruned = record cleared { etcd = etcd } in
    Ends-from host w d pruned (with_server host w w.start_error pruned) (refl, refl, refl, refl)
      refl (with_server-Ends host w w.start_error pruned)
