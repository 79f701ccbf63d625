-- ===== src/Daemon/Peers/Cache.antt =====
-- The cache of failed peers against its history: peerFailCache of node/internal/daemon/daemon.go.
use cluster_os.Prelude.{
  ℕ, ◌-◌, ◌≤◌, ◌<◌, String, ◌≡◌, refl, sym, ap, ◌∙◌, Bool, false, not, Option, none, some, List, [],
  ◌∷◌, ◌==◌, ◌⊎◌, inl, inr, ltb, arith, eq_iff, Bool-cases, if◌then◌else◌,
}
use mathlib.Core.Option.{none-ne-some}
use cluster_os.Prelude.Maps.{lookup, lookup-insert, lookup-delete, delete}
use cluster_os.Daemon.Peers.{PeerFailCache, failed_peer_ttl, should_skip, skip_found, mark_failed}

-- A call of the cache, at a time.
pub data Call : Type 0 where
  fails : ℕ → String → Call
  asks : ℕ → String → Call

abbrev pub time_of : Call → ℕ
time_of (fails now addr) = now
time_of (asks now addr) = now

-- The calls over the cache that the daemon keeps, with the answers to the questions.
unfoldable pub run_cache : List Call → PeerFailCache → List Bool
run_cache [] cache = []
run_cache (fails now addr ∷ cs) cache = run_cache cs (mark_failed now addr cache)
run_cache (asks now addr ∷ cs) cache =
    let (answer, after) = should_skip now addr cache in answer ∷ run_cache cs after

-- The specification remembers every failure, the last one first, and forgets none.
abbrev pub Failures : Type 0
Failures = List (String × ℕ)

unfoldable pub last_failure : String → Failures → Option ℕ
last_failure addr [] = none
last_failure addr ((a, t) ∷ fs) =
    let rest = last_failure addr fs in if a == addr then some t else rest

unfoldable pub is_recent : ℕ → Option ℕ → Bool
is_recent now none = false
is_recent now (some t) = not (ltb failed_peer_ttl (now - t))

unfoldable pub run_failures : List Call → Failures → List Bool
run_failures [] fs = []
run_failures (fails now addr ∷ cs) fs = run_failures cs ((addr, now) ∷ fs)
run_failures (asks now addr ∷ cs) fs = is_recent now (last_failure addr fs) ∷ run_failures cs fs

-- The calls are in the order of their times, none before `now`.
abbrev pub IsInOrder : ℕ → List Call → Type 0
IsInOrder now [] = Unit
IsInOrder now (c ∷ cs) = (now ≤ time_of c) × IsInOrder (time_of c) cs

-- What the cache holds of an address is its last failure, or the last failure is too old to matter.
abbrev Agrees : ℕ → PeerFailCache → Failures → Type 0
Agrees now cache fs =
    (addr : String)
    → (lookup addr cache ≡ last_failure addr fs)
      ⊎ ((lookup addr cache ≡ none)
          × ((t : ℕ) × (last_failure addr fs ≡ some t) × (failed_peer_ttl < now - t)))

Agrees-later :
    (now later : ℕ) (cache : PeerFailCache) (fs : Failures)
    → now ≤ later
    → Agrees now cache fs
    → Agrees later cache fs
Agrees-later now later cache fs h agrees addr = elim (agrees addr) [
  | inl same ↦ inl same
  | inr (gone, (t, last, old)) ↦ inr (gone, (t, last, omega arith))
]

Agrees-fails :
    (now : ℕ) (addr : String) (cache : PeerFailCache) (fs : Failures)
    → Agrees now cache fs
    → Agrees now (mark_failed now addr cache) ((addr, now) ∷ fs)
unfolding mark_failed last_failure
Agrees-fails now addr cache fs agrees other = elim (Bool-cases (addr == other)) [
  | inl e ↦ rw (lookup-insert addr other now cache, e) (inl refl)
  | inr e ↦ rw (lookup-insert addr other now cache, e) (agrees other)
]

-- Deleting an address whose last failure is too old.
Agrees-delete :
    (now t : ℕ) (addr : String) (cache : PeerFailCache) (fs : Failures)
    → last_failure addr fs ≡ some t
    → failed_peer_ttl < now - t
    → Agrees now cache fs
    → Agrees now (delete addr cache) fs
Agrees-delete now t addr cache fs last old agrees other = elim (Bool-cases (addr == other)) [
  | inl e ↦
      rw (lookup-delete addr other cache, e)
        (inr (refl, (t, ap (λ a. last_failure a fs) (sym ((eq_iff addr other).0 e)) ∙ last, old)))
  | inr e ↦ rw (lookup-delete addr other cache, e) (agrees other)
]

-- A question is answered as the specification answers it, and what it does to the cache does not show.
skip_found-Agrees :
    (now : ℕ) (addr : String) (o : Option ℕ) (cache : PeerFailCache) (fs : Failures)
    → lookup addr cache ≡ o
    → Agrees now cache fs
    → ((skip_found now addr o cache).0 ≡ is_recent now (last_failure addr fs))
      × Agrees now (skip_found now addr o cache).1 fs
unfolding skip_found is_recent
skip_found-Agrees now addr none cache fs found agrees = elim (agrees addr) [
  | inl same ↦ rw (sym same ∙ found, is_recent) (refl, agrees)
  | inr (gone, (t, last, old)) ↦ rw (last, is_recent) (ground arith, agrees)
]
skip_found-Agrees now addr (some t) cache fs found agrees = elim (agrees addr) [
  | inr (gone, last) ↦ absurd (none-ne-some t (sym gone ∙ found))
  | inl same ↦
      let last = sym same ∙ found in
      elim (Bool-cases (ltb failed_peer_ttl (now - t))) [
        | inl e ↦
            rw (last, is_recent, e, skip_found)
              (refl, Agrees-delete now t addr cache fs last (ground arith) agrees)
        | inr e ↦ rw (last, is_recent, e, skip_found) (refl, agrees)
      ]
]

run_cache-Agrees :
    (cs : List Call) (before : ℕ) (cache : PeerFailCache) (fs : Failures)
    → IsInOrder before cs
    → Agrees before cache fs
    → run_cache cs cache ≡ run_failures cs fs
unfolding run_cache run_failures should_skip
run_cache-Agrees [] before cache fs order agrees = refl
run_cache-Agrees (fails now addr ∷ cs) before cache fs order agrees =
    let h = Agrees-later before now cache fs order.0 agrees in
    run_cache-Agrees cs now _ _ order.1 (Agrees-fails now addr cache fs h)
run_cache-Agrees (asks now addr ∷ cs) before cache fs order agrees =
    let h = Agrees-later before now cache fs order.0 agrees in
    let (same, after) = skip_found-Agrees now addr (lookup addr cache) cache fs refl h in
    let rest = run_cache-Agrees cs now _ fs order.1 after in rw (same, rest) refl

-- The cache of failed peers refines the specification that remembers every failure: over calls in the order
-- of their times, from an empty cache, a peer is skipped exactly when its last failure is at most five
-- minutes old.
pub run_cache_refines : (cs : List Call) → IsInOrder 0 cs → run_cache cs [] ≡ run_failures cs []
unfolding lookup last_failure
run_cache_refines cs order = run_cache-Agrees cs 0 [] [] order (λ addr. inl refl)
