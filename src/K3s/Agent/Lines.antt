-- ===== src/K3s/Agent/Lines.antt =====
-- What the kubelet's lines do to an agent that is otherwise well: filterLine and HealthCheck of
-- node/internal/services/kubernetes/k3s/agent.go.
use cluster_os.Prelude.{
  ℕ, suc, ◌+◌, ◌<◌, ◌≡◌, refl, Bool, true, false, ◌&&◌, not, some, List, [], ◌∷◌, leb, arith, inl,
  inr, Bool-cases, if◌then◌else◌,
}
use cluster_os.Prelude.Words.{contains}
use cluster_os.K3s.Agent.{
  K3sAgent, Joining, Probe, waiting, watched, probed, health_check, filter_line, names_lost_node,
}
use cluster_os.K3s.Agent.Checks.{Event, starts, checks, logs, stops, reaps, event, run_agent}

-- A line, or a health check that finds the process alive and its supervisor waiting.
abbrev pub IsQuiet : Event → Type 0
IsQuiet (starts a) = ⊥
IsQuiet (checks alive probe a) = (alive ≡ true) × (probe ≡ waiting)
IsQuiet (logs line) = Unit
IsQuiet stops = ⊥
IsQuiet (reaps pid) = ⊥

abbrev pub AllQuiet : List Event → Type 0
AllQuiet [] = Unit
AllQuiet (e ∷ es) = IsQuiet e × AllQuiet es

unfoldable pub lost_line : Event → Bool
lost_line (logs line) = not (contains line "failed to get CA certs") && names_lost_node line
lost_line (starts a) = false
lost_line (checks alive probe a) = false
lost_line stops = false
lost_line (reaps pid) = false

-- The lines that say that the node is lost.
unfoldable pub lost_lines : List Event → ℕ
lost_lines [] = 0
lost_lines (e ∷ es) = let rest = lost_lines es in if lost_line e then suc rest else rest

-- What a quiet step does to the counter of lost nodes.
add_lost : Event → ℕ → ℕ
add_lost e n = if lost_line e then suc n else n

check_quiet :
    (alive : Bool) (probe : Probe) (a : Joining) (ka : K3sAgent) (pid : ℕ)
    → (alive ≡ true) × (probe ≡ waiting)
    → ka.cmd ≡ some pid
    → ka.node_not_found_count < 18
    → ((health_check alive probe a ka).0.cmd ≡ some pid)
      × ((health_check alive probe a ka).0.node_not_found_count ≡ ka.node_not_found_count)
unfolding health_check watched probed
check_quiet alive probe a ka pid (lives, waits) c few =
    let below : leb 18 ka.node_not_found_count ≡ false = ground arith in
    rw (c, health_check, lives, waits, probed, watched, below) (c, refl)

event_quiet :
    (e : Event) (ka : K3sAgent) (pid : ℕ)
    → IsQuiet e
    → ka.cmd ≡ some pid
    → ka.node_not_found_count < 18
    → ((event e ka).cmd ≡ some pid)
      × ((event e ka).node_not_found_count ≡ add_lost e ka.node_not_found_count)
unfolding event lost_line add_lost filter_line
event_quiet (starts a) ka pid h c few = absurd h
event_quiet (checks alive probe a) ka pid h c few = check_quiet alive probe a ka pid h c few
event_quiet (logs line) ka pid h c few =
    elim (Bool-cases (contains line "failed to get CA certs")) [
      | inl e ↦ rw (e, filter_line) (c, refl)
      | inr e ↦ elim (Bool-cases (names_lost_node line)) [
        | inl f ↦ rw (e, f, filter_line) (c, refl)
        | inr f ↦ rw (e, f, filter_line) (c, refl)
      ]
    ]
event_quiet stops ka pid h c few = absurd h
event_quiet (reaps pid') ka pid h c few = absurd h

lost_lines-cons :
    (e : Event) (es : List Event) (n : ℕ) → add_lost e n + lost_lines es ≡ n + lost_lines (e ∷ es)
unfolding lost_lines add_lost
lost_lines-cons e es n = ground arith

-- While an agent's health checks find its process alive and its supervisor waiting, the lines that say that
-- its node is lost add up, checks between them or not, and as long as they stay below 18 in all since the last
-- restart the process is kept.
pub lost_lines_add :
    (es : List Event) (ka : K3sAgent) (pid : ℕ)
    → AllQuiet es
    → ka.cmd ≡ some pid
    → ka.node_not_found_count + lost_lines es < 18
    → ((run_agent es ka).cmd ≡ some pid)
      × ((run_agent es ka).node_not_found_count ≡ ka.node_not_found_count + lost_lines es)
unfolding run_agent lost_lines
lost_lines_add [] ka pid quiet c few = (c, omega arith)
lost_lines_add (e ∷ es) ka pid quiet c few =
    let sum = lost_lines-cons e es ka.node_not_found_count in
    let (same, added) = event_quiet e ka pid quiet.0 c (omega arith) in
    let (kept, total) =
      lost_lines_add es (event e ka) pid quiet.1 same (omega (arith, added, sum, few)) in
    (kept, omega (arith, total, added, sum))
