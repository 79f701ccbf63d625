-- ===== src/K3s/Agent/Checks.antt =====
-- The steps of a K3s agent role in any order, and the health checks that find it stuck: Start, HealthCheck,
-- Stop, filterLine and the goroutine that waits for the process, of
-- node/internal/services/kubernetes/k3s/agent.go.
use cluster_os.Prelude.{
  ℕ, ◌<◌, String, ◌≡◌, refl, Bool, true, Option, none, some, List, [], ◌∷◌, ◌==◌, ◌⊎◌, inl, inr,
  eqb, leb, arith, Bool-cases, Option-cases, if-both,
}
use cluster_os.Prelude.Words.{contains}
use cluster_os.K3s.Agent.{
  K3sAgent, Joining, Probe, start_agent, begun, certified, launched, purge_agent_cache, kill,
  restart, watched, probed, health_check, stop, reap, filter_line, names_lost_node,
}

-- What may happen to a role, in the order in which it takes hold of the role.
pub data Event : Type 0 where
  starts : Joining → Event
  checks : Bool → Probe → Joining → Event
  logs : String → Event
  stops : Event
  reaps : ℕ → Event

unfoldable pub event : Event → K3sAgent → K3sAgent
event (starts a) ka = (start_agent a ka).0
event (checks alive probe a) ka = (health_check alive probe a ka).0
event (logs line) ka = filter_line line ka
event stops ka = stop ka
event (reaps pid) ka = reap pid ka

unfoldable pub run_agent : List Event → K3sAgent → K3sAgent
run_agent [] ka = ka
run_agent (e ∷ es) ka = run_agent es (event e ka)

-- Fewer than five failed checks are on record, and a role with a process says that it runs.
abbrev pub IsKept : K3sAgent → Type 0
IsKept ka = (ka.consecutive_ca_failures < 5) × ((ka.cmd ≡ none) ⊎ (ka.running ≡ true))

launched-IsKept : (p : String ⊎ ℕ) (ka : K3sAgent) → IsKept ka → IsKept (launched p ka).0
unfolding launched
launched-IsKept (inl e) ka h = h
launched-IsKept (inr pid) ka h = (h.0, inr refl)

certified-IsKept :
    (c : String ⊎ ℕ) (a : Joining) (ka : K3sAgent) → IsKept ka → IsKept (certified c a ka).0
unfolding certified purge_agent_cache
certified-IsKept (inl e) a ka h = h
certified-IsKept (inr status) a ka h = elim (Bool-cases (eqb status 200)) [
  | inl e ↦ rw (e, certified) (launched-IsKept a.process (purge_agent_cache ka) h)
  | inr e ↦ rw (e, certified) h
]

begun-IsKept :
    (o : Option String) (a : Joining) (ka : K3sAgent) → IsKept ka → IsKept (begun o a ka).0
unfolding begun
begun-IsKept (some e) a ka h = h
begun-IsKept none a ka h =
    let P = λ (r : K3sAgent × Option String). IsKept r.0 in
    if-both P a.local_server _ _ (λ l. (h.0, inr refl))
      (λ l.
        if-both P (ka.server_url == "") _ _ (λ u. h)
          (λ u. if-both P (ka.token == "") _ _ (λ t. h) (λ t. certified-IsKept a.ca_certs a ka h)))

start_agent-IsKept : (a : Joining) (ka : K3sAgent) → IsKept ka → IsKept (start_agent a ka).0
unfolding start_agent
start_agent-IsKept a ka h = begun-IsKept a.data_dir_error a ka h

restart-IsKept : (a : Joining) (ka : K3sAgent) → IsKept (restart a ka).0
unfolding restart
restart-IsKept a ka = start_agent-IsKept a _ (omega arith, inl refl)

watched-IsKept :
    (probe : Probe) (a : Joining) (ka : K3sAgent) → IsKept ka → IsKept (watched probe a ka).0
unfolding watched
watched-IsKept probe a ka h = elim (Bool-cases (leb 5 (probed probe ka.consecutive_ca_failures))) [
  | inl e ↦ rw (e, watched) (restart-IsKept a (kill ka))
  | inr e ↦ elim (Bool-cases (leb 18 ka.node_not_found_count)) [
    | inl f ↦ rw (e, f, watched) (restart-IsKept a (kill ka))
    | inr f ↦ rw (e, f, watched) (ground arith, h.1)
  ]
]

health_check-IsKept :
    (alive : Bool) (probe : Probe) (a : Joining) (ka : K3sAgent)
    → IsKept ka
    → IsKept (health_check alive probe a ka).0
unfolding health_check
health_check-IsKept alive probe a ka h = elim (Option-cases ka.cmd) [
  | inl e ↦ rw (e, health_check) (start_agent-IsKept a _ (omega arith, inl e))
  | inr (pid, e) ↦ elim (Bool-cases alive) [
    | inl f ↦ rw (e, f, health_check) (watched-IsKept probe a ka h)
    | inr f ↦ rw (e, f, health_check) (restart-IsKept a ka)
  ]
]

stop-IsKept : (ka : K3sAgent) → IsKept ka → IsKept (stop ka)
unfolding stop
stop-IsKept ka h = elim (Option-cases ka.cmd) [
  | inl e ↦ rw (e, stop) h
  | inr (pid, e) ↦ rw (e, stop) (h.0, inl refl)
]

reap-IsKept : (pid : ℕ) (ka : K3sAgent) → IsKept ka → IsKept (reap pid ka)
unfolding reap
reap-IsKept pid ka h = elim (Option-cases ka.cmd) [
  | inl e ↦ rw (e, reap) h
  | inr (current, e) ↦ elim (Bool-cases (eqb current pid)) [
    | inl f ↦ rw (e, f, reap) (h.0, inl refl)
    | inr f ↦ rw (e, f, reap) h
  ]
]

filter_line-IsKept : (line : String) (ka : K3sAgent) → IsKept ka → IsKept (filter_line line ka)
unfolding filter_line
filter_line-IsKept line ka h = elim (Bool-cases (contains line "failed to get CA certs")) [
  | inl e ↦ rw (e, filter_line) h
  | inr e ↦ elim (Bool-cases (names_lost_node line)) [
    | inl f ↦ rw (e, f, filter_line) h
    | inr f ↦ rw (e, f, filter_line) h
  ]
]

event-IsKept : (e : Event) (ka : K3sAgent) → IsKept ka → IsKept (event e ka)
unfolding event
event-IsKept (starts a) ka h = start_agent-IsKept a ka h
event-IsKept (checks alive probe a) ka h = health_check-IsKept alive probe a ka h
event-IsKept (logs line) ka h = filter_line-IsKept line ka h
event-IsKept stops ka h = stop-IsKept ka h
event-IsKept (reaps pid) ka h = reap-IsKept pid ka h

-- Whatever happens to an agent role in whatever order, if fewer than five failed checks were on record and a
-- role with a process said that it runs, that stays so.
pub run_agent-IsKept : (es : List Event) (ka : K3sAgent) → IsKept ka → IsKept (run_agent es ka)
unfolding run_agent
run_agent-IsKept [] ka h = h
run_agent-IsKept (e ∷ es) ka h = run_agent-IsKept es (event e ka) (event-IsKept e ka h)
