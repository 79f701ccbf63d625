-- ===== src/Daemon/Ready/Rejoin.antt =====
-- Which ready nodes join again when their server is gone (runReady of node/internal/daemon/daemon.go).
use cluster_os.Prelude.{
  suc, ◌+◌, ◌≤◌, ◌<◌, String, ◌≡◌, ◌≢◌, inl, inr, refl, sym, ap, subst, ◌∙◌, true, false, List, [],
  ◌∷◌, ◌==◌, leb, length, arith, eq_iff, Bool-cases,
}
use cluster_os.Daemon.Election.{extract_host}
use cluster_os.Daemon.Node.{Daemon, Host, get_leader_tag}
use cluster_os.Daemon.Ready.{
  Tick, Ready, moved, max_unreachable, worker_tick, tick, ticks_from, run_ready,
}
use cluster_os.Daemon.Joining.{Answers, run_joining}
use cluster_os.Daemon.Joining.Joins.{place-run_joining}
use cluster_os.Daemon.Ready.Ticks.{
  run_ready-Kept, may_rejoin, tick-worker_tick, tick_idle, ticks_leave, ticks_go_on,
}

-- No tick reaches port 6443 of a server.
abbrev pub Silent : String → List Tick → Type 0
Silent url [] = Unit
Silent url (t ∷ ts) = (t.answers (extract_host url) ≡ false) × Silent url ts

-- A tick that does not reach the server counts, or the node leaves.
worker_tick_counts :
    (host : Host) (t : Tick) (r : Ready)
    → t.answers (extract_host r.daemon.k3s_server_url) ≡ false
    → (worker_tick host t r).left ≡ false
    → worker_tick host t r ≡ record r { server_unreachable = suc r.server_unreachable }
unfolding worker_tick
worker_tick_counts host t r silent stays =
    elim (Bool-cases (
      moved r.daemon.k3s_server_url (get_leader_tag "k3s-server" r.daemon.leader_name t.members))) [
        | inl e ↦ absurd (ground arith)
        | inr e ↦ ground arith
      ]

worker_tick_few :
    (host : Host) (t : Tick) (r : Ready)
    → t.answers (extract_host r.daemon.k3s_server_url) ≡ false
    → (worker_tick host t r).left ≡ false
    → suc r.server_unreachable < max_unreachable
unfolding worker_tick
worker_tick_few host t r silent stays =
    elim (Bool-cases (
      moved r.daemon.k3s_server_url (get_leader_tag "k3s-server" r.daemon.leader_name t.members))) [
        | inl e ↦ absurd (ground arith)
        | inr e ↦ elim (Bool-cases (leb max_unreachable (suc r.server_unreachable))) [
          | inl f ↦ absurd (ground arith)
          | inr f ↦ ground arith
        ]
      ]

Silent-from :
    (host : Host) (ts : List Tick) (r : Ready)
    → r.left ≡ false
    → r.daemon.is_leader ≡ false
    → may_rejoin r.daemon ≡ true
    → Silent r.daemon.k3s_server_url ts
    → r.server_unreachable < max_unreachable
    → max_unreachable ≤ r.server_unreachable + length ts
    → (ticks_from host ts r).left ≡ true
Silent-from host [] r fresh follows may silent few long = absurd (omega arith)
Silent-from host (t ∷ ts) r fresh follows may silent few long =
    let after = tick host t r in
    let worked = tick-worker_tick host t r follows may in
    elim (Bool-cases after.left) [
      | inl e ↦ subst (λ x. x.left ≡ true) (ticks_leave host t ts r e) e
      | inr e ↦
          let stays = subst (λ x. x.left ≡ false) (sym worked) e in
          let next = record r { server_unreachable = suc r.server_unreachable } in
          let same : next ≡ after = sym (worker_tick_counts host t r silent.0 stays) ∙ worked in
          let fewer = worker_tick_few host t r silent.0 stays in
          let rest = Silent-from host ts next fresh follows may silent.1 fewer (omega arith) in
          subst (λ x. x.left ≡ true) (ticks_go_on host t ts r e)
            (subst (λ x. (ticks_from host ts x).left ≡ true) same rest)
    ]

-- A worker whose server does not answer for ten ticks in a row leaves the ready phase within those ticks.
pub run_ready_leaves :
    (host : Host) (ts : List Tick) (d : Daemon)
    → d.is_leader ≡ false
    → d.is_cp_server ≡ false
    → d.k3s_server_url ≢ ""
    → Silent d.k3s_server_url ts
    → max_unreachable ≤ length ts
    → (run_ready host ts d).left ≡ true
unfolding run_ready
run_ready_leaves host ts d follows pure joined silent long =
    let may : may_rejoin d ≡ true = elim (Bool-cases (d.k3s_server_url == "")) [
      | inl e ↦ absurd (joined ((eq_iff _ "").0 e))
      | inr e ↦ rw (pure, e) refl
    ] in
    Silent-from host ts (record { daemon = d; server_unreachable = 0; left = false }) refl follows
      may silent (omega arith) (omega arith)

idle_from :
    (host : Host) (ts : List Tick) (r : Ready)
    → r.left ≡ false
    → r.daemon.is_leader ≡ false
    → may_rejoin r.daemon ≡ false
    → ticks_from host ts r ≡ r
unfolding ticks_from
idle_from host [] r fresh follows idle = refl
idle_from host (t ∷ ts) r fresh follows idle =
    let same = tick_idle host t r follows idle in
    let stays : (tick host t r).left ≡ false = subst (λ x. x.left ≡ false) same fresh in
    sym (ticks_go_on host t ts r stays)
    ∙ subst (λ x. ticks_from host ts x ≡ r) same (idle_from host ts r fresh follows idle)

-- A leader that serves the control plane and yields is still counted as a server of it after it has
-- joined as a worker, so that it never leaves the ready phase again, whatever becomes of its server.
pub former_leader_never_leaves :
    (host : Host) (before : List Tick) (w : Answers) (later : List Tick) (d : Daemon)
    → d.is_cp_server ≡ true
    → (run_ready host before d).left ≡ true
    → let joined = (run_joining host w (run_ready host before d).daemon).0 in
      run_ready host later joined ≡ record { daemon = joined; server_unreachable = 0; left = false }
unfolding run_ready
former_leader_never_leaves host before w later d serves left =
    let yielded = (run_ready host before d).daemon in
    let joined = (run_joining host w yielded).0 in
    let kept = run_ready-Kept host before d in
    let same = place-run_joining host w yielded in
    let follows : joined.is_leader ≡ false = ap (λ p. p.0) same ∙ (kept.rejoins left).1 in
    let server : joined.is_cp_server ≡ true = ap (λ p. p.1) same ∙ kept.is_cp_server ∙ serves in
    idle_from host later (record { daemon = joined; server_unreachable = 0; left = false }) refl
      follows (rw server refl)
