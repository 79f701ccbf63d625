-- ===== src/K3s/Server/Recovery.antt =====
-- When a K3s server drops the etcd data on disk: resetEtcdIfStale, Start, WaitForAPIReady and
-- wipeEtcdAndKillK3s of node/internal/services/kubernetes/k3s/server.go.
use cluster_os.Prelude.{
  ℕ, suc, ◌+◌, ◌≤◌, ◌≡◌, refl, String, Bool, true, false, ◌&&◌, List, [], ◌∷◌, ◌⊎◌, if◌then◌else◌,
  inl, inr, eqb, leb, ltb, not, arith, eq_iff, Bool-cases,
}
use cluster_os.K3s.Server.{
  K3sServer, Disk, Outcome, ApiPoll, may_recover, recover, wait_from, wait_for_api_ready,
}
use cluster_os.K3s.Server.Lifecycle.{kept}

-- The quorum is found lost in these rounds, after `n` such answers in a row: three answers of 503 in a row
-- of late rounds, before kubectl answers.
unfoldable pub late_unavailable : ApiPoll → Bool
late_unavailable p = not p.answers && (ltb 90000000000 p.elapsed && eqb p.status 503)

-- Number of late rounds that answer 503.
unfoldable pub late_count : List ApiPoll → ℕ
late_count [] = 0
late_count (p ∷ ps) = let rest = late_count ps in if late_unavailable p then suc rest else rest

late_count_skip : (p : ApiPoll) (ps : List ApiPoll) → late_count ps ≤ late_count (p ∷ ps)
unfolding late_count
late_count_skip p ps = ground arith

late_count_hit :
    (p : ApiPoll) (ps : List ApiPoll)
    → p.answers ≡ false
    → ltb 90000000000 p.elapsed ≡ true
    → eqb p.status 503 ≡ true
    → late_count (p ∷ ps) ≡ suc (late_count ps)
unfolding late_count late_unavailable
late_count_hit p ps a b c = ground arith

-- A wait ends with the role and the disk as they were, or the role could recover and has.
abbrev pub Waited : K3sServer → Disk → ℕ → Outcome → Type 0
Waited ks disk n o =
    (kept o ≡ (ks, disk))
    ⊎ ((ks.server_url ≡ "") × (ks.quorum_recovery_done ≡ false) × (3 ≤ n) × (o ≡ recover ks disk))

may_recover-fields :
    (ks : K3sServer) (p : ApiPoll)
    → may_recover ks p ≡ true
    → (ks.server_url ≡ "") × (ks.quorum_recovery_done ≡ false) × (ltb 90000000000 p.elapsed ≡ true)
unfolding may_recover
may_recover-fields ks p h = ((eq_iff ks.server_url "").0 (ground arith), ground arith, ground arith)

wait_from-Waited :
    (timeout : String) (n m : ℕ) (ks : K3sServer) (disk : Disk) (ps : List ApiPoll)
    → n + late_count ps ≤ m
    → Waited ks disk m (wait_from timeout n ks disk ps)
unfolding wait_from kept
wait_from-Waited timeout n m ks disk [] few = inl refl
wait_from-Waited timeout n m ks disk (p ∷ ps) few =
    let skip = late_count_skip p ps in
    let go =
      λ (k : ℕ) (less : k + late_count ps ≤ m). wait_from-Waited timeout k m ks disk ps less in
    elim (Bool-cases p.answers) [
      | inl a ↦ rw (a, wait_from) (inl refl)
      | inr a ↦ elim (Bool-cases (may_recover ks p)) [
        | inr e ↦ rw (a, e, wait_from) (go n (omega arith))
        | inl e ↦ elim (Bool-cases (eqb p.status 503)) [
          | inr s ↦ rw (a, e, s, wait_from) (go 0 (omega arith))
          | inl s ↦
              let (url, fresh, late) = may_recover-fields ks p e in
              let hit = late_count_hit p ps a late s in
              elim (Bool-cases (leb 3 (suc n))) [
                | inl l ↦ rw (a, e, s, l, wait_from) (inr (url, fresh, ground arith, refl))
                | inr l ↦ rw (a, e, s, l, wait_from) (go (suc n) (omega arith))
              ]
        ]
      ]
    ]

-- Waiting for the API leaves the role and its disk as they are, unless the role is a leader's that has not
-- recovered a quorum before and at least three rounds of the wait, each more than 90 seconds after it
-- began, found /healthz answering 503: then it ends as `recover` says.
pub wait_for_api_ready-Waited :
    (timeout : String) (ks : K3sServer) (disk : Disk) (ps : List ApiPoll)
    → Waited ks disk (late_count ps) (wait_for_api_ready timeout ks disk ps)
unfolding wait_for_api_ready
wait_for_api_ready-Waited timeout ks disk ps =
    wait_from-Waited timeout 0 (late_count ps) ks disk ps (omega arith)
