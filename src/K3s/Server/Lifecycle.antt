-- ===== src/K3s/Server/Lifecycle.antt =====
-- The steps of a K3s server role in any order, and what its record says of the process: Start, HealthCheck,
-- Stop, WaitForAPIReady and the goroutine that waits for the process, of
-- node/internal/services/kubernetes/k3s/server.go.
use cluster_os.Prelude.{
  ℕ, suc, String, ◌≡◌, refl, Bool, true, false, Option, none, some, List, [], ◌∷◌, ◌⊎◌, inl, inr,
  eqb, leb, Bool-cases, Option-cases,
}
use cluster_os.K3s.Server.{
  K3sServer, Disk, Starting, Outcome, ApiPoll, start, started, launched, health_check, stop, reap,
  may_recover, recover, wait_from, wait_for_api_ready, prepare,
}

-- What may happen to a role, in the order in which it takes hold of the role.
pub data Event : Type 0 where
  starts : Starting → Event
  checks : Bool → Starting → Event
  waits : String → List ApiPoll → Event
  stops : Event
  reaps : ℕ → Event

abbrev pub Place : Type 0
Place = K3sServer × Disk

unfoldable pub kept : Outcome → Place
kept (ks, disk, error) = (ks, disk)

unfoldable pub event : Event → Place → Place
unfolding kept
event (starts a) (ks, disk) = kept (start a ks disk)
event (checks alive a) (ks, disk) = kept (health_check alive a ks disk)
event (waits timeout polls) (ks, disk) = kept (wait_for_api_ready timeout ks disk polls)
event stops (ks, disk) = (stop ks, disk)
event (reaps pid) (ks, disk) = (reap pid ks, disk)

unfoldable pub run_role : List Event → Place → Place
run_role [] place = place
run_role (e ∷ es) place = run_role es (event e place)

unfoldable pub held : Option ℕ → Bool
held none = false
held (some pid) = true

-- The role says that it runs exactly when it holds a process.
abbrev pub IsConsistent : K3sServer → Type 0
IsConsistent ks = ks.running ≡ held ks.cmd

launched-IsConsistent :
    (p : String ⊎ ℕ) (ks : K3sServer) (disk : Disk)
    → IsConsistent ks
    → IsConsistent (kept (launched p ks disk)).0
unfolding kept launched held
launched-IsConsistent (inl e) ks disk h = h
launched-IsConsistent (inr pid) ks disk h = refl

started-IsConsistent :
    (o : Option String) (a : Starting) (ks : K3sServer) (disk : Disk)
    → IsConsistent ks
    → IsConsistent (kept (started o a ks disk)).0
unfolding kept started held
started-IsConsistent none a ks disk h =
    launched-IsConsistent a.process (record ks { start_count = suc ks.start_count })
      (prepare ks disk) h
started-IsConsistent (some e) a ks disk h = h

pub start-IsConsistent :
    (a : Starting) (ks : K3sServer) (disk : Disk)
    → IsConsistent ks
    → IsConsistent (kept (start a ks disk)).0
unfolding start
start-IsConsistent a ks disk h = started-IsConsistent a.data_dir_error a ks disk h

health_check-IsConsistent :
    (alive : Bool) (a : Starting) (ks : K3sServer) (disk : Disk)
    → IsConsistent ks
    → IsConsistent (kept (health_check alive a ks disk)).0
unfolding health_check kept held
health_check-IsConsistent alive a ks disk h = elim (Option-cases ks.cmd) [
  | inl e ↦ rw (e, health_check) (start-IsConsistent a ks disk h)
  | inr (pid, e) ↦ elim (Bool-cases alive) [
    | inl f ↦ rw (e, f, health_check, kept) h
    | inr f ↦
        rw (e, f, health_check)
          (start-IsConsistent a (record ks { cmd = none; running = false }) disk refl)
  ]
]

wait_from-IsConsistent :
    (timeout : String) (n : ℕ) (ks : K3sServer) (disk : Disk) (polls : List ApiPoll)
    → IsConsistent ks
    → IsConsistent (kept (wait_from timeout n ks disk polls)).0
unfolding wait_from kept held recover
wait_from-IsConsistent timeout n ks disk [] h = h
wait_from-IsConsistent timeout n ks disk (p ∷ ps) h =
    let counted = wait_from-IsConsistent timeout (suc n) ks disk ps h in
    let same = wait_from-IsConsistent timeout n ks disk ps h in
    let again = wait_from-IsConsistent timeout 0 ks disk ps h in
    elim (Bool-cases p.answers) [
      | inl a ↦ rw a h
      | inr a ↦ elim (Bool-cases (may_recover ks p)) [
        | inr m ↦ rw (a, m) same
        | inl m ↦ elim (Bool-cases (eqb p.status 503)) [
          | inr s ↦ rw (a, m, s) again
          | inl s ↦ elim (Bool-cases (leb 3 (suc n))) [
            | inl l ↦ rw (a, m, s, l) refl
            | inr l ↦ rw (a, m, s, l) counted
          ]
        ]
      ]
    ]

stop-IsConsistent : (ks : K3sServer) → IsConsistent ks → IsConsistent (stop ks)
unfolding stop held
stop-IsConsistent ks h = elim (Option-cases ks.cmd) [
  | inl e ↦ rw (e, stop) h
  | inr (pid, e) ↦ rw (e, stop) refl
]

reap-IsConsistent : (pid : ℕ) (ks : K3sServer) → IsConsistent ks → IsConsistent (reap pid ks)
unfolding reap held
reap-IsConsistent pid ks h = elim (Option-cases ks.cmd) [
  | inl e ↦ rw (e, reap) h
  | inr (current, e) ↦ elim (Bool-cases (eqb current pid)) [
    | inl f ↦ rw (e, f, reap) refl
    | inr f ↦ rw (e, f, reap) h
  ]
]

event-IsConsistent : (e : Event) (p : Place) → IsConsistent p.0 → IsConsistent (event e p).0
unfolding event wait_for_api_ready
event-IsConsistent (starts a) (ks, disk) h = start-IsConsistent a ks disk h
event-IsConsistent (checks alive a) (ks, disk) h = health_check-IsConsistent alive a ks disk h
event-IsConsistent (waits timeout polls) (ks, disk) h =
    wait_from-IsConsistent timeout 0 ks disk polls h
event-IsConsistent stops (ks, disk) h = stop-IsConsistent ks h
event-IsConsistent (reaps pid) (ks, disk) h = reap-IsConsistent pid ks h

-- Whatever happens to a server role in whatever order, the role says that it runs exactly when it holds a
-- process, if it did so before.
pub run_role-IsConsistent :
    (es : List Event) (p : Place) → IsConsistent p.0 → IsConsistent (run_role es p).0
unfolding run_role
run_role-IsConsistent [] p h = h
run_role-IsConsistent (e ∷ es) p h = run_role-IsConsistent es (event e p) (event-IsConsistent e p h)
