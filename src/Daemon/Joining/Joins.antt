-- ===== src/Daemon/Joining/Joins.antt =====
-- What joining leaves as it is, and what a node that has joined runs (node/internal/daemon/daemon.go).
use cluster_os.Prelude.{
  ◌≡◌, inl, inr, refl, ◌∙◌, Bool, false, Option, none, some, Option-cases, Bool-cases, ◌==◌, arith,
}
use cluster_os.Daemon.ControlPlane.{is_in_cp_list}
use cluster_os.Daemon.Election.{find_running_leader}
use cluster_os.Daemon.Slurm.{wrap, start_worker}
use cluster_os.Daemon.Node.{
  Daemon, Host, set_phase, publish_tag, register_role, unregister_role, stop_slurm_controller,
  get_leader_tag,
}
use cluster_os.Daemon.Node.LeaderTags.{LeaderClusterTags, wait_for_leader_tag}
use cluster_os.Daemon.Joining.{
  Answers, update_tailscale_ip, start_agent, start_slurm_worker, join_worker, has_text, join_leader,
  await_leader, fresh_leader, run_joining,
}

-- A daemon's place in the cluster: whether it leads, whether it serves the control plane, and whether it
-- runs a SLURM controller.
abbrev pub place : Daemon → Bool × Bool × Bool
place d = (d.is_leader, d.is_cp_server, d.slurm_ctrl)

place-start_agent :
    (w : Answers) (tags : LeaderClusterTags) (d : Daemon) → place (start_agent w tags d) ≡ place d
unfolding start_agent
place-start_agent w tags d = ground arith

place-update_tailscale_ip :
    (host : Host) (w : Answers) (d : Daemon) → place (update_tailscale_ip host w d) ≡ place d
unfolding update_tailscale_ip publish_tag
place-update_tailscale_ip host w d = ground arith

place-start_slurm_worker :
    (host : Host) (w : Answers) (tags : LeaderClusterTags) (d : Daemon)
    → place (start_slurm_worker host w tags d).0 ≡ place d
unfolding start_slurm_worker set_phase publish_tag register_role
place-start_slurm_worker host w tags d =
    elim (Option-cases
      (wrap "start slurm worker" (start_worker false w.worker tags.munge_key d.munge_file).1)) [
        | inl e ↦ rw (e, start_slurm_worker) refl
        | inr (x, e) ↦ rw (e, start_slurm_worker) refl
      ]

place-join_worker :
    (host : Host) (w : Answers) (tags : Option LeaderClusterTags) (d : Daemon)
    → place (join_worker host w tags d).0 ≡ place d
unfolding join_worker
place-join_worker host w none d = refl
place-join_worker host w (some tags) d =
    let joined = record d { k3s_server_url = tags.server_url } in
    let named = update_tailscale_ip host w joined in
    place-start_slurm_worker host w tags (start_agent w tags named)
    ∙ place-start_agent w tags named
    ∙ place-update_tailscale_ip host w joined

place-join_leader :
    (host : Host) (w : Answers) (d : Daemon) → place (join_leader host w d).0 ≡ place d
unfolding join_leader set_phase
place-join_leader host w d =
    let actual = find_running_leader w.healthz w.synced in
    let listed = is_in_cp_list (get_leader_tag "cp-servers" d.leader_name w.synced) w.local_ip in
    elim (Bool-cases listed) [
      | inl e ↦ rw (e, join_leader) refl
      | inr e ↦ elim (Bool-cases (has_text (get_leader_tag "k3s-server" d.leader_name w.synced))) [
        | inl f ↦ rw (e, f, join_leader) (place-join_worker host w _ d)
        | inr f ↦ elim (Bool-cases (actual == "")) [
          | inl g ↦ rw (e, f, g, join_leader) refl
          | inr g ↦
              rw (e, f, g, join_leader)
                (place-join_worker host w _ (record d { leader_name = actual }))
        ]
      ]
    ]

place-await_leader :
    (host : Host) (w : Answers) (d : Daemon) → place (await_leader host w d).0 ≡ place d
unfolding await_leader
place-await_leader host w d =
    elim (Option-cases (wait_for_leader_tag "phase" "ready" d.leader_name w.for_ready)) [
      | inl e ↦ rw (e, await_leader) refl
      | inr (x, e) ↦ rw (e, await_leader) (place-join_leader host w d)
    ]

place-cleared :
    (d : Daemon)
    → place (stop_slurm_controller (unregister_role "k3s-server" d))
      ≡ (d.is_leader, d.is_cp_server, false)
unfolding stop_slurm_controller unregister_role
place-cleared d = ground arith

-- Joining as a worker stops the SLURM controller, on every branch, and leaves whether the node leads and
-- whether it counts as a control-plane server.
pub place-run_joining :
    (host : Host) (w : Answers) (d : Daemon)
    → place (run_joining host w d).0 ≡ (d.is_leader, d.is_cp_server, false)
unfolding run_joining set_phase
place-run_joining host w d =
    let cleared = stop_slurm_controller (unregister_role "k3s-server" d) in
    let leader = fresh_leader host w in
    elim (Bool-cases (cleared.leader_name == "")) [
      | inr e ↦ rw (e, run_joining) (place-await_leader host w cleared ∙ place-cleared d)
      | inl e ↦ elim (Bool-cases (leader == "")) [
        | inl f ↦ rw (e, f, run_joining) (place-cleared d)
        | inr f ↦
            rw (e, f, run_joining)
              (place-await_leader host w (record cleared { leader_name = leader })
                ∙ place-cleared d)
      ]
    ]
