-- ===== src/Daemon/Joining/Secondary.antt =====
-- What joining the control plane leaves as it is (runJoiningCP of node/internal/daemon/daemon.go).
use cluster_os.Prelude.{
  ◌≡◌, refl, ap, sym, ◌∙◌, Bool, false, Option, none, some, Option-cases, Bool-cases, inl, inr,
  arith,
}
use cluster_os.Daemon.Node.{
  Daemon, Host, set_phase, publish_tag, register_role, unregister_role, stop_slurm_controller,
}
use cluster_os.Daemon.Node.LeaderTags.{
  LeaderClusterTags, wait_for_leader_tag, read_leader_cluster_tags,
}
use cluster_os.Daemon.Joining.{
  Answers, update_tailscale_ip, wait_for_k3s_api, finish_cp, join_cp, run_joining_cp,
}
use cluster_os.Daemon.Joining.Phases.{provisions}

-- What joining the control plane is to keep: a node that is no leader, runs no SLURM controller and does
-- not provision.
abbrev pub follows : Daemon → Bool × Bool × Bool
follows d = (d.is_leader, d.slurm_ctrl, provisions d.phase)

update_tailscale_ip-follows :
    (host : Host) (w : Answers) (d : Daemon) → follows (update_tailscale_ip host w d) ≡ follows d
unfolding update_tailscale_ip publish_tag
update_tailscale_ip-follows host w d = ground arith

join_cp-follows :
    (host : Host) (w : Answers) (tags : Option LeaderClusterTags) (d : Daemon)
    → provisions d.phase ≡ false
    → follows (join_cp host w tags d).0 ≡ follows d
unfolding join_cp finish_cp set_phase publish_tag register_role
join_cp-follows host w none d h = refl
join_cp-follows host w (some tags) d h =
    let named = update_tailscale_ip host w d in
    let same = update_tailscale_ip-follows host w d in
    let still : provisions named.phase ≡ false = ap (λ p. p.2) same ∙ h in
    let ended : follows (finish_cp host w tags named) ≡ follows named =
      ap (λ p. (named.is_leader, named.slurm_ctrl, p)) (sym still) in
    elim (Bool-cases (wait_for_k3s_api w.api_polls)) [
      | inr e ↦ rw (e, join_cp) same
      | inl e ↦ elim (Option-cases w.k3s_error) [
        | inr (x, f) ↦ rw (e, f, join_cp) same
        | inl f ↦ elim (Option-cases w.k3s_ready_error) [
          | inr (x, g) ↦ rw (e, f, g, join_cp) same
          | inl g ↦ rw (e, f, g, join_cp) (ended ∙ same)
        ]
      ]
    ]

cleared-follows :
    (d : Daemon)
    → follows (stop_slurm_controller (unregister_role "k3s-agent" d))
      ≡ (d.is_leader, false, provisions d.phase)
unfolding stop_slurm_controller unregister_role
cleared-follows d = ground arith

-- Joining the control plane stops the SLURM controller, on every branch, leaves whether the node leads,
-- and does not go on to provision.
pub run_joining_cp-follows :
    (host : Host) (w : Answers) (d : Daemon)
    → provisions d.phase ≡ false
    → follows (run_joining_cp host w d).0 ≡ (d.is_leader, false, false)
unfolding run_joining_cp
run_joining_cp-follows host w d h =
    let cleared = stop_slurm_controller (unregister_role "k3s-agent" d) in
    let read = read_leader_cluster_tags host cleared.leader_name w.tag_polls cleared.munge_file in
    let same = cleared-follows d ∙ ap (λ b. (d.is_leader, false, b)) h in
    let kept : provisions cleared.phase ≡ false = ap (λ p. p.2) same in
    elim (Option-cases (wait_for_leader_tag "phase" "ready" cleared.leader_name w.for_ready)) [
      | inl e ↦ rw (e, run_joining_cp) same
      | inr (x, e) ↦ rw (e, run_joining_cp) (join_cp-follows host w read cleared kept ∙ same)
    ]
