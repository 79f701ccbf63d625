-- ===== src/Daemon/Joining/Phases.antt =====
-- No joining node goes on to provision (runJoining and runJoiningCP of node/internal/daemon/daemon.go).
use cluster_os.Prelude.{
  ◌≡◌, refl, ap, ◌∙◌, inl, inr, Bool, true, false, Option, none, some, Option-cases, Bool-cases,
  ◌==◌, arith,
}
use cluster_os.Daemon.ControlPlane.{is_in_cp_list}
use cluster_os.Daemon.Election.{find_running_leader}
use cluster_os.Daemon.Slurm.{wrap, start_worker}
use cluster_os.Daemon.Node.{
  Daemon, Host, Phase, provisioning, set_phase, publish_tag, register_role, unregister_role,
  stop_slurm_controller, get_leader_tag,
}
use cluster_os.Daemon.Node.LeaderTags.{LeaderClusterTags, wait_for_leader_tag}
use cluster_os.Daemon.Joining.{
  Answers, update_tailscale_ip, start_agent, start_slurm_worker, join_worker, has_text, join_leader,
  await_leader, fresh_leader, run_joining,
}

-- Whether a phase is the one in which a leader provisions.
abbrev pub provisions : Phase → Bool
provisions provisioning = true
provisions _ = false

start_agent-phase :
    (w : Answers) (tags : LeaderClusterTags) (d : Daemon) → (start_agent w tags d).phase ≡ d.phase
unfolding start_agent
start_agent-phase w tags d = ground arith

update_tailscale_ip-phase :
    (host : Host) (w : Answers) (d : Daemon) → (update_tailscale_ip host w d).phase ≡ d.phase
unfolding update_tailscale_ip publish_tag
update_tailscale_ip-phase host w d = ground arith

start_slurm_worker-phase :
    (host : Host) (w : Answers) (tags : LeaderClusterTags) (d : Daemon)
    → provisions d.phase ≡ false
    → provisions (start_slurm_worker host w tags d).0.phase ≡ false
unfolding start_slurm_worker set_phase publish_tag register_role
start_slurm_worker-phase host w tags d h =
    elim (Option-cases
      (wrap "start slurm worker" (start_worker false w.worker tags.munge_key d.munge_file).1)) [
        | inl e ↦ rw (e, start_slurm_worker) refl
        | inr (x, e) ↦ rw (e, start_slurm_worker) h
      ]

join_worker-phase :
    (host : Host) (w : Answers) (tags : Option LeaderClusterTags) (d : Daemon)
    → provisions d.phase ≡ false
    → provisions (join_worker host w tags d).0.phase ≡ false
unfolding join_worker
join_worker-phase host w none d h = h
join_worker-phase host w (some tags) d h =
    let joined = record d { k3s_server_url = tags.server_url } in
    let named = update_tailscale_ip host w joined in
    let same = start_agent-phase w tags named ∙ update_tailscale_ip-phase host w joined in
    start_slurm_worker-phase host w tags (start_agent w tags named) (ap provisions same ∙ h)

join_leader-phase :
    (host : Host) (w : Answers) (d : Daemon)
    → provisions d.phase ≡ false
    → provisions (join_leader host w d).0.phase ≡ false
unfolding join_leader set_phase publish_tag
join_leader-phase host w d h =
    let actual = find_running_leader w.healthz w.synced in
    let listed = is_in_cp_list (get_leader_tag "cp-servers" d.leader_name w.synced) w.local_ip in
    elim (Bool-cases listed) [
      | inl e ↦ rw (e, join_leader) refl
      | inr e ↦ elim (Bool-cases (has_text (get_leader_tag "k3s-server" d.leader_name w.synced))) [
        | inl f ↦ rw (e, f, join_leader) (join_worker-phase host w _ d h)
        | inr f ↦ elim (Bool-cases (actual == "")) [
          | inl g ↦ rw (e, f, g, join_leader) h
          | inr g ↦
              rw (e, f, g, join_leader)
                (join_worker-phase host w _ (record d { leader_name = actual }) h)
        ]
      ]
    ]

await_leader-phase :
    (host : Host) (w : Answers) (d : Daemon)
    → provisions d.phase ≡ false
    → provisions (await_leader host w d).0.phase ≡ false
unfolding await_leader
await_leader-phase host w d h =
    elim (Option-cases (wait_for_leader_tag "phase" "ready" d.leader_name w.for_ready)) [
      | inl e ↦ rw (e, await_leader) h
      | inr (x, e) ↦ rw (e, await_leader) (join_leader-phase host w d h)
    ]

cleared-phase :
    (d : Daemon) → (stop_slurm_controller (unregister_role "k3s-server" d)).phase ≡ d.phase
unfolding stop_slurm_controller unregister_role
cleared-phase d = ground arith

pub run_joining-phase :
    (host : Host) (w : Answers) (d : Daemon)
    → provisions d.phase ≡ false
    → provisions (run_joining host w d).0.phase ≡ false
unfolding run_joining set_phase publish_tag
run_joining-phase host w d h =
    let cleared = stop_slurm_controller (unregister_role "k3s-server" d) in
    let leader = fresh_leader host w in
    let kept = ap provisions (cleared-phase d) ∙ h in
    elim (Bool-cases (cleared.leader_name == "")) [
      | inr e ↦ rw (e, run_joining) (await_leader-phase host w cleared kept)
      | inl e ↦ elim (Bool-cases (leader == "")) [
        | inl f ↦ rw (e, f, run_joining) refl
        | inr f ↦
            rw (e, f, run_joining)
              (await_leader-phase host w (record cleared { leader_name = leader }) kept)
      ]
    ]
