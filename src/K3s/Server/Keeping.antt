-- ===== src/K3s/Server/Keeping.antt =====
-- A leader with an unchanged IP keeps its etcd data: Start, HealthCheck, Stop, WaitForAPIReady and
-- resetEtcdIfStale of node/internal/services/kubernetes/k3s/server.go, in any order.
use cluster_os.Prelude.{
  ℕ, suc, ◌≡◌, refl, String, subst, sym, ◌∙◌, Bool, true, false, Option, none, some, List, [], ◌∷◌,
  ◌==◌, ◌⊎◌, inl, inr, eqb, eq_iff, Bool-cases, Option-cases,
}
use cluster_os.Prelude.Split.{trim_space}
use cluster_os.K3s.Server.{
  K3sServer, Disk, Etcd, Starting, Outcome, start, started, launched, health_check, stop, reap,
  recover, wipe_etcd_and_kill_k3s, prepare, reset_etcd_if_stale, against,
}
use cluster_os.K3s.Server.Lifecycle.{
  Event, starts, checks, waits, stops, reaps, Place, kept, event, run_role,
}
use cluster_os.K3s.Server.Recovery.{Waited, wait_for_api_ready-Waited}

-- A leader whose start would not drop its etcd.
abbrev IsSettled : Place → Type 0
IsSettled (ks, disk) = (ks.server_url ≡ "") × (reset_etcd_if_stale ks.node_ip disk.etcd ≡ disk.etcd)

-- What a step leaves as it is.
abbrev Stays : Place → Place → Type 0
Stays (ks, disk) (ks', disk') =
    (ks'.node_ip ≡ ks.node_ip)
    × (ks'.server_url ≡ ks.server_url)
    × (((ks.quorum_recovery_done ≡ false) × (ks'.quorum_recovery_done ≡ true))
        ⊎ ((ks'.quorum_recovery_done ≡ ks.quorum_recovery_done)
            × (IsSettled (ks, disk) → disk'.etcd ≡ disk.etcd)))

prepare-etcd :
    (ks : K3sServer) (disk : Disk) → IsSettled (ks, disk) → (prepare ks disk).etcd ≡ disk.etcd
unfolding prepare
prepare-etcd ks disk h =
    let leader : (ks.server_url == "") ≡ true = (eq_iff ks.server_url "").1 h.0 in
    rw (leader, prepare) h.1

launched-Stays :
    (p : String ⊎ ℕ) (ks : K3sServer) (disk : Disk) (place : Place)
    → Stays place (ks, disk)
    → Stays place (kept (launched p ks disk))
unfolding kept launched
launched-Stays (inl e) ks disk place h = h
launched-Stays (inr pid) ks disk place h = h

started-Stays :
    (o : Option String) (a : Starting) (ks : K3sServer) (disk : Disk)
    → Stays (ks, disk) (kept (started o a ks disk))
unfolding kept started
started-Stays none a ks disk =
    launched-Stays a.process (record ks { start_count = suc ks.start_count }) (prepare ks disk)
      (ks, disk) (refl, refl, inr (refl, prepare-etcd ks disk))
started-Stays (some e) a ks disk = (refl, refl, inr (refl, λ h. refl))

health_check-Stays :
    (alive : Bool) (a : Starting) (ks : K3sServer) (disk : Disk)
    → Stays (ks, disk) (kept (health_check alive a ks disk))
unfolding kept health_check start
health_check-Stays alive a ks disk = elim (Option-cases ks.cmd) [
  | inl e ↦ rw (e, health_check) (started-Stays a.data_dir_error a ks disk)
  | inr (pid, e) ↦ elim (Bool-cases alive) [
    | inl f ↦ rw (e, f, health_check, kept) (refl, refl, inr (refl, λ h. refl))
    | inr f ↦
        rw (e, f, health_check)
          (started-Stays a.data_dir_error a (record ks { cmd = none; running = false }) disk)
  ]
]

Waited-Stays :
    (ks : K3sServer) (disk : Disk) (n : ℕ) (o : Outcome)
    → Waited ks disk n o
    → Stays (ks, disk) (kept o)
unfolding recover kept wipe_etcd_and_kill_k3s
Waited-Stays ks disk n o (inl e) =
    subst (Stays (ks, disk)) (sym e) (refl, refl, inr (refl, λ h. refl))
Waited-Stays ks disk n o (inr (url, fresh, few, e)) =
    subst (λ x. Stays (ks, disk) (kept x)) (sym e) (refl, refl, inl (fresh, refl))

stop-Stays : (ks : K3sServer) (disk : Disk) → Stays (ks, disk) (stop ks, disk)
unfolding stop
stop-Stays ks disk = elim (Option-cases ks.cmd) [
  | inl e ↦ rw (e, stop) (refl, refl, inr (refl, λ h. refl))
  | inr (pid, e) ↦ rw (e, stop) (refl, refl, inr (refl, λ h. refl))
]

reap-Stays : (pid : ℕ) (ks : K3sServer) (disk : Disk) → Stays (ks, disk) (reap pid ks, disk)
unfolding reap
reap-Stays pid ks disk = elim (Option-cases ks.cmd) [
  | inl e ↦ rw (e, reap) (refl, refl, inr (refl, λ h. refl))
  | inr (current, e) ↦ elim (Bool-cases (eqb current pid)) [
    | inl f ↦ rw (e, f, reap) (refl, refl, inr (refl, λ h. refl))
    | inr f ↦ rw (e, f, reap) (refl, refl, inr (refl, λ h. refl))
  ]
]

event-Stays : (e : Event) (p : Place) → Stays p (event e p)
unfolding event start
event-Stays (starts a) (ks, disk) = started-Stays a.data_dir_error a ks disk
event-Stays (checks alive a) (ks, disk) = health_check-Stays alive a ks disk
event-Stays (waits timeout polls) (ks, disk) =
    Waited-Stays ks disk _ _ (wait_for_api_ready-Waited timeout ks disk polls)
event-Stays stops (ks, disk) = stop-Stays ks disk
event-Stays (reaps pid) (ks, disk) = reap-Stays pid ks disk

IsSettled-Stays :
    (p q : Place)
    → q.0.node_ip ≡ p.0.node_ip
    → q.0.server_url ≡ p.0.server_url
    → q.1.etcd ≡ p.1.etcd
    → IsSettled p
    → IsSettled q
IsSettled-Stays p q ip url same (leader, fresh) = (url ∙ leader, rw (ip, same) fresh)

Stays-trans : (p q r : Place) → Stays p q → Stays q r → Stays p r
Stays-trans p q r (ip, url, inl (fresh, done)) (ip', url', inl (other, done')) =
    (ip' ∙ ip, url' ∙ url, inl (fresh, done'))
Stays-trans p q r (ip, url, inl (fresh, done)) (ip', url', inr (same, keeps)) =
    (ip' ∙ ip, url' ∙ url, inl (fresh, same ∙ done))
Stays-trans p q r (ip, url, inr (same, keeps)) (ip', url', inl (fresh, done)) =
    (ip' ∙ ip, url' ∙ url, inl (sym same ∙ fresh, done))
Stays-trans p q r (ip, url, inr (same, keeps)) (ip', url', inr (same', keeps')) =
    let keep = λ (h : IsSettled p). keeps' (IsSettled-Stays p q ip url (keeps h) h) ∙ keeps h in
    (ip' ∙ ip, url' ∙ url, inr (same' ∙ same, keep))

run_role-Stays : (es : List Event) (p : Place) → Stays p (run_role es p)
unfolding run_role
run_role-Stays [] p = (refl, refl, inr (refl, λ (h : IsSettled p). refl))
run_role-Stays (e ∷ es) p =
    Stays-trans p (event e p) (run_role es (event e p)) (event-Stays e p)
      (run_role-Stays es (event e p))

matching :
    (node_ip stored : String) (etcd : Etcd)
    → etcd.marker ≡ some stored
    → trim_space stored ≡ node_ip
    → reset_etcd_if_stale node_ip (some etcd) ≡ some etcd
unfolding reset_etcd_if_stale against
matching node_ip stored etcd m same =
    let equal : (trim_space stored == node_ip) ≡ true =
      (eq_iff (trim_space stored) node_ip).1 same in
    elim (Bool-cases (node_ip == "")) [
      | inl e ↦ rw (e, reset_etcd_if_stale) refl
      | inr e ↦
          rw (e, reset_etcd_if_stale)
            (subst (λ o. against node_ip etcd o ≡ some etcd) (sym m) (rw equal refl))
    ]

-- A leader whose etcd records the leader's own IP keeps its etcd through any health checks, starts, waits,
-- stops and exits in any order, unless a wait recovers the quorum, which it does only if none has before.
pub run_role_keeps_etcd :
    (es : List Event) (ks : K3sServer) (disk : Disk) (etcd : Etcd) (stored : String)
    → ks.server_url ≡ ""
    → disk.etcd ≡ some etcd
    → etcd.marker ≡ some stored
    → trim_space stored ≡ ks.node_ip
    → let after = run_role es (ks, disk) in
      ((ks.quorum_recovery_done ≡ false) × (after.0.quorum_recovery_done ≡ true))
      ⊎ (after.1.etcd ≡ some etcd)
run_role_keeps_etcd es ks disk etcd stored leader there m same =
    elim (run_role-Stays es (ks, disk)).2 [
      | inl recovered ↦ inl recovered
      | inr (flag, keeps) ↦
          inr (keeps (leader, rw there (matching ks.node_ip stored etcd m same)) ∙ there)
    ]
