-- ===== src/Daemon/Ready/Ticks.antt =====
-- When a ready node leaves that phase (runReady of node/internal/daemon/daemon.go).
use cluster_os.Prelude.Maps.{Map}
use cluster_os.Prelude.{
  suc, String, ◌≡◌, inl, inr, refl, sym, subst, ◌∙◌, Bool, true, false, ◌&&◌, not, List, [], ◌∷◌,
  ◌==◌, leb, false≢true, arith, Bool-cases,
}
use cluster_os.Daemon.Election.{extract_host, find_competing_leader}
use cluster_os.Daemon.Node.{
  Daemon, Host, joining, set_phase, stop_slurm_controller, publish_tag, drop_tags, get_leader_tag,
}
use cluster_os.Daemon.Ready.{
  Tick, Ready, tell_size, yield_to, leader_tick, moved, max_unreachable, worker_tick, tick,
  ticks_from, run_ready,
}

-- A daemon that joins again, and is no leader.
abbrev pub Rejoins : Daemon → Type 0
Rejoins d = (d.phase ≡ joining) × (d.is_leader ≡ false)

-- What a round of ticks may do: the node stays as it is but for its tags, or it joins again; a server of
-- the control plane stays one.
pub record Kept (d after : Daemon) (left : Bool) : Type 0 where
  pub rejoins : left ≡ true → Rejoins after
  pub stays : left ≡ false → (after.phase ≡ d.phase) × (after.is_leader ≡ d.is_leader)
  pub idle : left ≡ false → after.slurm_ctrl ≡ d.slurm_ctrl
  pub is_cp_server : after.is_cp_server ≡ d.is_cp_server
  pub k3s_server_url : after.k3s_server_url ≡ d.k3s_server_url
  pub worker : d.is_leader ≡ false → after.slurm_ctrl ≡ d.slurm_ctrl
  pub stopped : d.is_leader ≡ true → left ≡ true → after.slurm_ctrl ≡ false

stop_is_leader : (d : Daemon) → (stop_slurm_controller d).is_leader ≡ d.is_leader
unfolding stop_slurm_controller
stop_is_leader d = ground arith

stop_is_cp_server : (d : Daemon) → (stop_slurm_controller d).is_cp_server ≡ d.is_cp_server
unfolding stop_slurm_controller
stop_is_cp_server d = ground arith

stop_k3s_server_url : (d : Daemon) → (stop_slurm_controller d).k3s_server_url ≡ d.k3s_server_url
unfolding stop_slurm_controller
stop_k3s_server_url d = ground arith

stop_slurm_ctrl : (d : Daemon) → (stop_slurm_controller d).slurm_ctrl ≡ false
unfolding stop_slurm_controller
stop_slurm_ctrl d = ground arith

yield-Kept :
    (host : Host) (competing : String) (d : Daemon) (tags : Map String)
    → d.is_leader ≡ true
    → Kept d (yield_to host competing (record d { tags = tags })) true
unfolding yield_to set_phase publish_tag drop_tags
yield-Kept host competing d tags leads =
    let told = record d { is_leader = false; leader_name = competing; tags = tags } in
    let dropped = drop_tags host ("k3s-nodes" ∷ []) told in
    record {
      rejoins = λ _. (refl, stop_is_leader dropped);
      stays = λ e. absurd (ground arith);
      idle = λ e. absurd (ground arith);
      is_cp_server = stop_is_cp_server dropped;
      k3s_server_url = stop_k3s_server_url dropped;
      worker = λ e. absurd (ground arith);
      stopped = λ _ _. stop_slurm_ctrl dropped;
    }

-- A node that stays changes its tags only.
stays-Kept : (d : Daemon) (tags : Map String) → Kept d (record d { tags = tags }) false
stays-Kept d tags = record {
  rejoins = λ e. absurd (false≢true e);
  stays = λ _. (refl, refl);
  idle = λ _. refl;
  is_cp_server = refl;
  k3s_server_url = refl;
  worker = λ _. refl;
  stopped = λ _ e. absurd (false≢true e);
}

tell_size_tags :
    (host : Host) (t : Tick) (d : Daemon)
    → record d { tags = (tell_size host t d).tags } ≡ tell_size host t d
unfolding tell_size publish_tag
tell_size_tags host t d = ground arith

leader_tick-Kept :
    (host : Host) (t : Tick) (r : Ready)
    → r.left ≡ false
    → r.daemon.is_leader ≡ true
    → Kept r.daemon (leader_tick host t r).daemon (leader_tick host t r).left
unfolding leader_tick
leader_tick-Kept host t r fresh leads =
    let d = r.daemon in
    let competing = find_competing_leader host.node_name t.k3s_nodes_compared t.members in
    let tags = (tell_size host t d).tags in
    let told = tell_size_tags host t d in
    elim (Bool-cases (competing == "")) [
      | inl e ↦ rw (e, fresh) (subst (λ x. Kept d x false) told (stays-Kept d tags))
      | inr e ↦ rw e (
          subst (λ x. Kept d (yield_to host competing x) true) told
            (yield-Kept host competing d tags leads))
    ]

rejoin-Kept :
    (host : Host) (d : Daemon) (leader : String)
    → d.is_leader ≡ false
    → Kept d (set_phase host joining (record d { leader_name = leader })) true
unfolding set_phase publish_tag
rejoin-Kept host d leader follows = record {
  rejoins = λ _. (refl, follows);
  stays = λ e. absurd (ground arith);
  idle = λ e. absurd (ground arith);
  is_cp_server = refl;
  k3s_server_url = refl;
  worker = λ _. refl;
  stopped = λ e. absurd (ground arith);
}

worker_tick-Kept :
    (host : Host) (t : Tick) (r : Ready)
    → r.left ≡ false
    → r.daemon.is_leader ≡ false
    → Kept r.daemon (worker_tick host t r).daemon (worker_tick host t r).left
unfolding worker_tick
worker_tick-Kept host t r fresh follows =
    let d = r.daemon in
    let url = d.k3s_server_url in
    let full = leb max_unreachable (suc r.server_unreachable) in
    elim (Bool-cases (moved url (get_leader_tag "k3s-server" d.leader_name t.members))) [
      | inl e ↦ rw e (rejoin-Kept host d d.leader_name follows)
      | inr e ↦ elim (Bool-cases (t.answers (extract_host url))) [
        | inl f ↦ rw (e, f, fresh) (stays-Kept d d.tags)
        | inr f ↦ elim (Bool-cases full) [
          | inl g ↦ rw (e, f, g) (rejoin-Kept host d "" follows)
          | inr g ↦ rw (e, f, g, fresh) (stays-Kept d d.tags)
        ]
      ]
    ]

tick-leader_tick :
    (host : Host) (t : Tick) (r : Ready)
    → r.daemon.is_leader ≡ true
    → leader_tick host t r ≡ tick host t r
unfolding tick
tick-leader_tick host t r e = ground arith

-- Whether a node that is not the leader checks its server.
abbrev pub may_rejoin : Daemon → Bool
may_rejoin d = not d.is_cp_server && not (d.k3s_server_url == "")

pub tick-worker_tick :
    (host : Host) (t : Tick) (r : Ready)
    → r.daemon.is_leader ≡ false
    → may_rejoin r.daemon ≡ true
    → worker_tick host t r ≡ tick host t r
unfolding tick
tick-worker_tick host t r e f = ground arith

pub tick_idle :
    (host : Host) (t : Tick) (r : Ready)
    → r.daemon.is_leader ≡ false
    → may_rejoin r.daemon ≡ false
    → r ≡ tick host t r
unfolding tick
tick_idle host t r e f = ground arith

tick-Kept :
    (host : Host) (t : Tick) (r : Ready)
    → r.left ≡ false
    → Kept r.daemon (tick host t r).daemon (tick host t r).left
tick-Kept host t r fresh =
    let d = r.daemon in
    let P : Ready → Type 0 = λ x. Kept d x.daemon x.left in
    elim (Bool-cases d.is_leader) [
      | inl e ↦ subst P (tick-leader_tick host t r e) (leader_tick-Kept host t r fresh e)
      | inr e ↦ elim (Bool-cases (may_rejoin d)) [
        | inl f ↦ subst P (tick-worker_tick host t r e f) (worker_tick-Kept host t r fresh e)
        | inr f ↦
            subst P (tick_idle host t r e f)
              (subst (λ b. Kept d d b) (sym fresh) (stays-Kept d d.tags))
      ]
    ]

Kept-then :
    (d middle after : Daemon) (left : Bool)
    → Kept d middle false
    → Kept middle after left
    → Kept d after left
Kept-then d middle after left k l =
    let same = k.stays refl in
    record {
      rejoins = l.rejoins;
      stays = λ e. ((l.stays e).0 ∙ same.0, (l.stays e).1 ∙ same.1);
      idle = λ e. l.idle e ∙ k.idle refl;
      is_cp_server = l.is_cp_server ∙ k.is_cp_server;
      k3s_server_url = l.k3s_server_url ∙ k.k3s_server_url;
      worker = λ e. l.worker (same.1 ∙ e) ∙ k.worker e;
      stopped = λ e. l.stopped (same.1 ∙ e);
    }

pub ticks_leave :
    (host : Host) (t : Tick) (ts : List Tick) (r : Ready)
    → (tick host t r).left ≡ true
    → tick host t r ≡ ticks_from host (t ∷ ts) r
unfolding ticks_from
ticks_leave host t ts r e = ground arith

pub ticks_go_on :
    (host : Host) (t : Tick) (ts : List Tick) (r : Ready)
    → (tick host t r).left ≡ false
    → ticks_from host ts (tick host t r) ≡ ticks_from host (t ∷ ts) r
unfolding ticks_from
ticks_go_on host t ts r e = ground arith

ticks-Kept :
    (host : Host) (ts : List Tick) (r : Ready)
    → r.left ≡ false
    → Kept r.daemon (ticks_from host ts r).daemon (ticks_from host ts r).left
unfolding ticks_from
ticks-Kept host [] r fresh =
    subst (λ b. Kept r.daemon r.daemon b) (sym fresh) (stays-Kept r.daemon r.daemon.tags)
ticks-Kept host (t ∷ ts) r fresh =
    let after = tick host t r in
    let d = r.daemon in
    let kept = tick-Kept host t r fresh in
    let P : Ready → Type 0 = λ x. Kept d x.daemon x.left in
    elim (Bool-cases after.left) [
      | inl e ↦ subst P (ticks_leave host t ts r e) kept
      | inr e ↦
          let stayed = subst (λ b. Kept d after.daemon b) e kept in
          subst P (ticks_go_on host t ts r e)
            (Kept-then d after.daemon _ _ stayed (ticks-Kept host ts after e))
    ]

-- However long a node is ready: it stays in its phase and keeps its role as leader, or it goes to joining
-- and is no leader. It never stops being a control-plane server and keeps the server it has joined, and a
-- leader that goes runs no SLURM controller.
pub run_ready-Kept :
    (host : Host) (ts : List Tick) (d : Daemon)
    → Kept d (run_ready host ts d).daemon (run_ready host ts d).left
unfolding run_ready
run_ready-Kept host ts d =
    ticks-Kept host ts (record { daemon = d; server_unreachable = 0; left = false }) refl
