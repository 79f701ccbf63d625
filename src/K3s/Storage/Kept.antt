-- ===== src/K3s/Storage/Kept.antt =====
-- The PVs that cleanupOrphanedStorage of node/internal/services/kubernetes/k3s/server.go lets be, and the one
-- that ensureRancherDataPVC takes.
use cluster_os.Prelude.{
  String, ◌≡◌, refl, ap, ◌∙◌, sym, subst, Bool, true, false, ◌&&◌, ◌||◌, not, Option, none, some,
  List, [], ◌∷◌, ◌++◌, inl, inr, arith, filter, Bool-cases, Option-cases, ◌==◌, elem, eq_iff,
  false≢true,
}
use cluster_os.Prelude.Errors.{after_text}
use cluster_os.Prelude.Fields.{split_at}
use cluster_os.K3s.Storage.{
  Pv, Volume, Command, Kubectl, delete_policy, handles_of, volumes_in, create_namespace, apply,
  patch_pv, delete_pv, delete_volume, is_managed, is_candidate, is_bound, is_leaked, listed_pvs,
  patched, reclaim, reclaim_all, drop_volumes, cleanup_orphaned_longhorn_volumes,
  cleanup_orphaned_storage,
}
use cluster_os.K3s.Storage.Rebinding.{
  is_rancher_data, released_pv, listing, no_claim, namespace_yaml, pvc_yaml, after_namespace,
  rebound, claim_data, ensure_rancher_data_pvc,
}

-- Whether a command changes the PV with this name.
abbrev pub changes : String → Command → Bool
changes p (patch_pv q json) = q == p
changes p (delete_pv q) = q == p
changes p _ = false

abbrev pub some_changes : String → List Command → Bool
some_changes p [] = false
some_changes p (c ∷ cs) = changes p c || some_changes p cs

abbrev pub names : List Pv → List String
names [] = []
names (pv ∷ pvs) = pv.name ∷ names pvs

-- No two PVs have the same name.
abbrev pub AreDistinct : List Pv → Type 0
AreDistinct [] = Unit
AreDistinct (pv ∷ pvs) = (elem pv.name (names pvs) ≡ false) × AreDistinct pvs

some_changes-append :
    (p : String) (cs ds : List Command)
    → some_changes p (cs ++ ds) ≡ (some_changes p cs || some_changes p ds)
some_changes-append p [] ds = refl
some_changes-append p (c ∷ cs) ds = ground (arith, some_changes-append p cs ds)

module _ (k : Kubectl) where
  open k use {Cluster, run, list_pvs, volume_handles}

  patched-changes :
      (p : String) (pv : Pv) (done : Cluster × Option String)
      → some_changes p (patched k pv done).1 ≡ (pv.name == p)
  unfolding patched
  patched-changes p pv (t, none) = ground arith
  patched-changes p pv (t, some e) = ground arith

  -- A round changes at most its PV, and only a candidate.
  reclaim-changes :
      (p : String) (pv : Pv) (t : Cluster)
      → some_changes p (reclaim k pv t).1 ≡ true
      → (is_candidate pv && pv.name == p) ≡ true
  unfolding reclaim
  reclaim-changes p pv t h =
      let claims = is_candidate pv && not (is_bound k pv.claim_namespace pv.claim_name t) in
      let patch = run (patch_pv pv.name delete_policy) t in
      ground (arith, h, patched-changes p pv patch)

  drop_volumes-changes :
      (p : String) (handles : List String) (vs : List Volume) (t : Cluster)
      → some_changes p (drop_volumes k handles vs t).1 ≡ false
  unfolding drop_volumes
  drop_volumes-changes p handles [] t = refl
  drop_volumes-changes p handles (v ∷ vs) t = elim (Bool-cases (is_leaked handles v)) [
    | inl h ↦ rw h (drop_volumes-changes p handles vs (run (delete_volume v.name) t).0)
    | inr h ↦ rw h (drop_volumes-changes p handles vs t)
  ]

  volumes-changes :
      (p : String) (t : Cluster) → some_changes p (cleanup_orphaned_longhorn_volumes k t).1 ≡ false
  unfolding cleanup_orphaned_longhorn_volumes
  volumes-changes p t = elim (Option-cases (k.list_volumes t)) [
    | inl e ↦ rw e refl
    | inr (out, e) ↦
        rw e
          (drop_volumes-changes p (handles_of (volume_handles t)) (volumes_in (split_at 10 out)) t)
  ]

  reclaim_all-changes :
      (p : String) (pvs : List Pv) (t : Cluster)
      → some_changes p (reclaim_all k pvs t).1 ≡ true
      → elem p (names (filter is_candidate pvs)) ≡ true
  unfolding reclaim_all filter elem
  reclaim_all-changes p [] t h = h
  reclaim_all-changes p (pv ∷ pvs) t h =
      let first = reclaim k pv t in
      let joined = some_changes-append p first.1 (reclaim_all k pvs first.0).1 in
      elim (Bool-cases (some_changes p first.1)) [
        | inl e ↦ let this = reclaim-changes p pv t e in ground (arith, this)
        | inr e ↦
            let rest = reclaim_all-changes p pvs first.0 (ground (arith, joined, h, e)) in
            ground (arith, rest)
      ]

found-elem :
    (p : String) (pvs : List Pv)
    → released_pv pvs ≡ p
    → (p == "") ≡ false
    → elem p (names pvs) ≡ true
unfolding released_pv elem
found-elem p [] h n = absurd (false≢true (sym n ∙ (eq_iff p "").1 (sym h)))
found-elem p (pv ∷ pvs) h n = elim (Bool-cases (is_rancher_data pv)) [
  | inl e ↦ let same : pv.name ≡ p = ground (arith, h, e) in rw ((eq_iff pv.name p).1 same) refl
  | inr e ↦ let rest = found-elem p pvs (ground (arith, h, e)) n in ground (arith, rest)
]

managed_key :
    after_text "cattle-system" (after_text "/" "rancher-data") ≡ "cattle-system/rancher-data"
unfolding after_text
managed_key = refl

-- The data of Rancher is managed.
rancher_data-is_managed : (pv : Pv) → is_rancher_data pv ≡ true → is_candidate pv ≡ false
unfolding is_rancher_data is_candidate is_managed
rancher_data-is_managed pv h =
    let ns : (pv.claim_namespace == "cattle-system") ≡ true = ground (arith, h) in
    let claim : (pv.claim_name == "rancher-data") ≡ true = ground (arith, h) in
    rw ((eq_iff _ _).0 ns, (eq_iff _ _).0 claim, managed_key) (ground arith)

candidate-elem :
    (p : String) (pvs : List Pv)
    → elem p (names (filter is_candidate pvs)) ≡ true
    → elem p (names pvs) ≡ true
unfolding filter elem
candidate-elem p [] h = h
candidate-elem p (pv ∷ pvs) h = elim (Bool-cases (elem p (names (filter is_candidate pvs)))) [
  | inl e ↦ let rest = candidate-elem p pvs e in ground (arith, rest)
  | inr e ↦ ground (arith, h, e)
]

-- The PV that is found for the data of Rancher is no candidate, nor is one of its name.
found-candidate :
    (p : String) (pvs : List Pv)
    → AreDistinct pvs
    → released_pv pvs ≡ p
    → (p == "") ≡ false
    → elem p (names (filter is_candidate pvs)) ≡ false
unfolding released_pv filter elem
found-candidate p [] d h n = refl
found-candidate p (pv ∷ pvs) d h n = elim (Bool-cases (is_rancher_data pv)) [
  | inl e ↦
      let same : pv.name ≡ p = ground (arith, h, e) in
      let out = rancher_data-is_managed pv e in
      let once : elem p (names pvs) ≡ false = subst (λ q. elem q (names pvs) ≡ false) same d.0 in
      elim (Bool-cases (elem p (names (filter is_candidate pvs)))) [
        | inl c ↦ absurd (false≢true (sym once ∙ candidate-elem p pvs c))
        | inr c ↦ ground (arith, out, c)
      ]
  | inr e ↦
      let found : released_pv pvs ≡ p = ground (arith, h, e) in
      let rest = found-candidate p pvs d.1 found n in
      let there = found-elem p pvs found n in
      elim (Bool-cases (pv.name == p)) [
        | inl c ↦
            absurd
              (false≢true (sym d.0 ∙ ap (λ q. elem q (names pvs)) ((eq_iff pv.name p).0 c) ∙ there))
        | inr c ↦ ground (arith, rest, c)
      ]
]

module _ (k : Kubectl) where
  open k use {Cluster, run, list_pvs}

  cleanup-spares :
      (p out : String) (t : Cluster)
      → list_pvs t ≡ some out
      → elem p (names (filter is_candidate (listed_pvs out))) ≡ false
      → some_changes p (cleanup_orphaned_storage k t).1 ≡ false
  unfolding cleanup_orphaned_storage
  cleanup-spares p out t listed none_of =
      let all = reclaim_all k (listed_pvs out) t in
      let after = cleanup_orphaned_longhorn_volumes k all.0 in
      rw (listed, some_changes-append p all.1 after.1, volumes-changes k p all.0)
        (elim (Bool-cases (some_changes p all.1)) [
          | inl e ↦ absurd (false≢true (sym none_of ∙ reclaim_all-changes k p (listed_pvs out) t e))
          | inr e ↦ rw e refl
        ])

  -- On a cluster that lists PVs with distinct names, before and after the namespace is made sure of, one of
  -- them a released PV of the data of Rancher, and where the PVC of the data is not bound:
  -- cleanupOrphanedStorage runs no command on that PV, whatever the commands on others answer, and
  -- ensureRancherDataPVC drops the claim of that PV and applies a PVC that names it.
  pub rancher_data_kept :
      (p out : String) (t : Cluster)
      → list_pvs t ≡ some out
      → list_pvs (after_namespace k t) ≡ some out
      → is_bound k "cattle-system" "rancher-data" (after_namespace k t) ≡ false
      → AreDistinct (listed_pvs out)
      → released_pv (listed_pvs out) ≡ p
      → (p == "") ≡ false
      → (some_changes p (cleanup_orphaned_storage k t).1 ≡ false)
        × ((ensure_rancher_data_pvc k t).1
            ≡ create_namespace "cattle-system"
              ∷ apply namespace_yaml
              ∷ patch_pv p no_claim
              ∷ apply (pvc_yaml p)
              ∷ [])
  unfolding ensure_rancher_data_pvc after_namespace claim_data rebound listing
  rancher_data_kept p out t listed again free distinct found named =
      let u = after_namespace k t in
      (
        cleanup-spares p out t listed (found-candidate p (listed_pvs out) distinct found named),
        rw (free, again, found, named)
            (elim (Option-cases (run (apply (pvc_yaml p)) (run (patch_pv p no_claim) u).0).1) [
              | inl e ↦ rw e refl
              | inr (text, e) ↦ rw e refl
            ]),
      )
