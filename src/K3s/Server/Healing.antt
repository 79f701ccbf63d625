-- ===== src/K3s/Server/Healing.antt =====
-- A leader without a quorum starts again as a cluster of one: WaitForAPIReady, wipeEtcdAndKillK3s,
-- HealthCheck and Start of node/internal/services/kubernetes/k3s/server.go.
use cluster_os.Prelude.{
  ℕ, suc, ◌≡◌, ◌≢◌, refl, String, ap, ◌∙◌, Bool, true, false, none, some, List, [], ◌∷◌, ◌++◌, ◌==◌,
  inl, inr, eqb, leb, ltb, arith, eq_iff, Bool-cases, if◌then◌else◌,
}
use cluster_os.K3s.Server.{
  K3sServer, Disk, Starting, Outcome, ApiPoll, start, started, launched, health_check, may_recover,
  recover, wipe_etcd_and_kill_k3s, wait_from, wait_for_api_ready, prepare, reset_etcd_if_stale,
  marked,
}

-- A round more than 90 seconds after the wait began in which kubectl fails and /healthz answers 503.
abbrev pub Unavailable : ApiPoll → Type 0
Unavailable p = (p.answers ≡ false) × (ltb 90000000000 p.elapsed ≡ true) × (eqb p.status 503 ≡ true)

-- A leader that has not recovered a quorum.
abbrev pub CanRecover : K3sServer → Type 0
CanRecover ks = (ks.server_url ≡ "") × (ks.quorum_recovery_done ≡ false)

-- In no round kubectl answers.
abbrev pub Silent : List ApiPoll → Type 0
Silent [] = Unit
Silent (p ∷ ps) = (p.answers ≡ false) × Silent ps

module _ (timeout : String) (ks : K3sServer) (disk : Disk) (can : CanRecover ks) where
  wait_from-Unavailable :
      (n : ℕ) (p : ApiPoll) (ps : List ApiPoll)
      → Unavailable p
      → wait_from timeout n ks disk (p ∷ ps)
        ≡ (if leb 3 (suc n) then recover ks disk else wait_from timeout (suc n) ks disk ps)
  unfolding wait_from may_recover
  wait_from-Unavailable n p ps (a, l, s) =
      let leader : (ks.server_url == "") ≡ true = (eq_iff ks.server_url "").1 can.0 in
      let fresh = can.1 in ground arith

  wait_from_three :
      (n : ℕ) (p q r : ApiPoll) (ps : List ApiPoll)
      → Unavailable p
      → Unavailable q
      → Unavailable r
      → wait_from timeout n ks disk (p ∷ q ∷ r ∷ ps) ≡ recover ks disk
  wait_from_three n p q r ps hp hq hr =
      let first = wait_from-Unavailable n p (q ∷ r ∷ ps) hp in
      let second = wait_from-Unavailable (suc n) q (r ∷ ps) hq in
      let third = wait_from-Unavailable (suc (suc n)) r ps hr in ground arith

  wait_from_lost :
      (n : ℕ) (early : List ApiPoll) (p q r : ApiPoll) (ps : List ApiPoll)
      → Silent early
      → Unavailable p
      → Unavailable q
      → Unavailable r
      → wait_from timeout n ks disk (early ++ p ∷ q ∷ r ∷ ps) ≡ recover ks disk
  unfolding wait_from
  wait_from_lost n [] p q r ps silent hp hq hr = wait_from_three n p q r ps hp hq hr
  wait_from_lost n (x ∷ early) p q r ps silent hp hq hr =
      let go = λ (k : ℕ). wait_from_lost k early p q r ps silent.1 hp hq hr in
      elim (Bool-cases (may_recover ks x)) [
        | inr e ↦ rw (silent.0, e, wait_from) (go n)
        | inl e ↦ elim (Bool-cases (eqb x.status 503)) [
          | inr s ↦ rw (silent.0, e, s, wait_from) (go 0)
          | inl s ↦ elim (Bool-cases (leb 3 (suc n))) [
            | inl l ↦ rw (silent.0, e, s, l, wait_from) refl
            | inr l ↦ rw (silent.0, e, s, l, wait_from) (go (suc n))
          ]
        ]
      ]

-- The role, its disk and the error after a wait, when a health check follows in which starting fails nowhere.
abbrev pub healed : K3sServer → Disk → ℕ → Outcome
healed ks disk pid = (
  record ks {
    cmd = some pid;
    running = true;
    start_count = suc ks.start_count;
    quorum_recovery_done = true;
  },
  record disk { etcd = some (record { marker = some ks.node_ip; contents = none }) },
  none,
)

unfoldable pub check_after : Bool → Starting → Outcome → Outcome
check_after alive a (ks, disk, error) = health_check alive a ks disk

check_after-recover :
    (ks : K3sServer) (disk : Disk) (alive : Bool) (a : Starting) (pid : ℕ)
    → CanRecover ks
    → ks.node_ip ≢ ""
    → a.data_dir_error ≡ none
    → a.process ≡ inr pid
    → check_after alive a (recover ks disk) ≡ healed ks disk pid
unfolding check_after recover wipe_etcd_and_kill_k3s health_check start started launched prepare
    reset_etcd_if_stale marked
check_after-recover ks disk alive a pid can known dir process =
    let leader : (ks.server_url == "") ≡ true = (eq_iff ks.server_url "").1 can.0 in
    elim (Bool-cases (ks.node_ip == "")) [
      | inl e ↦ absurd (known ((eq_iff ks.node_ip "").0 e))
      | inr e ↦ rw (dir, started, process, launched, leader, prepare, e, reset_etcd_if_stale) refl
    ]

-- A leader that waits for its API, where three rounds in a row, later than 90 seconds, find /healthz
-- answering 503 before kubectl answers in any, drops its etcd, and the health check after that starts it
-- again as a cluster of one: it holds the new process, records its IP for an empty etcd, and has used up the
-- one recovery that it may do. Starting must not fail.
pub quorum_lost_heals :
    (timeout : String) (ks : K3sServer) (disk : Disk) (early : List ApiPoll) (p q r : ApiPoll)
    (late : List ApiPoll) (alive : Bool) (a : Starting) (pid : ℕ)
    → CanRecover ks
    → ks.node_ip ≢ ""
    → Silent early
    → Unavailable p
    → Unavailable q
    → Unavailable r
    → a.data_dir_error ≡ none
    → a.process ≡ inr pid
    → check_after alive a (wait_for_api_ready timeout ks disk (early ++ p ∷ q ∷ r ∷ late))
      ≡ healed ks disk pid
unfolding wait_for_api_ready
quorum_lost_heals timeout ks disk early p q r late alive a pid can known silent hp hq hr dir
      process =
    ap (check_after alive a) (wait_from_lost timeout ks disk can 0 early p q r late silent hp hq hr)
    ∙ check_after-recover ks disk alive a pid can known dir process
