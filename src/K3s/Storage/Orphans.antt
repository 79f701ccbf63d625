-- ===== src/K3s/Storage/Orphans.antt =====
-- What cleanupOrphanedStorage of node/internal/services/kubernetes/k3s/server.go reclaims.
use cluster_os.Prelude.{
  String, ◌≡◌, refl, ap, ◌∙◌, Bool, ◌&&◌, not, none, some, List, [], ◌∷◌, ◌++◌, inl, inr, filter,
  map, Bool-cases, if◌then◌else◌,
}
use cluster_os.Prelude.Tables.{ArePlain}
use cluster_os.K3s.Storage.{
  Pv, Volume, Command, Kubectl, patch_pv, delete_pv, delete_volume, delete_policy, is_candidate,
  is_bound, is_leaked, handles_of, patched, reclaim, reclaim_all, drop_volumes,
  cleanup_orphaned_longhorn_volumes, cleanup_orphaned_storage,
}
use cluster_os.K3s.Storage.Orphan.{
  NoSlash, is_orphan, is_orphan_volume, handle_table, guards-is_orphan, is_leaked-is_orphan_volume,
}
use cluster_os.K3s.Storage.Listed.{
  pv_cells, pv_table, listed_pvs_table, volume_cells, volume_table, volumes_in_table, trimmed,
}

-- The policy of each PV is switched to Delete before it is deleted.
abbrev pub reclaiming : List Pv → List Command
reclaiming [] = []
reclaiming (pv ∷ pvs) = patch_pv pv.name delete_policy ∷ delete_pv pv.name ∷ reclaiming pvs

abbrev pub dropping : List Volume → List Command
dropping [] = []
dropping (v ∷ vs) = delete_volume v.name ∷ dropping vs

filter-orphans :
    (k : Kubectl) (t : k.Cluster) (pvs : List Pv)
    → NoSlash pvs
    → filter (λ pv. is_candidate pv && not (is_bound k pv.claim_namespace pv.claim_name t)) pvs
      ≡ filter (is_orphan k t) pvs
unfolding filter
filter-orphans k t [] h = refl
filter-orphans k t (pv ∷ pvs) h = rw (guards-is_orphan k t pv h.0, filter-orphans k t pvs h.1) refl

dropping-orphans :
    (handles : List String) (vs : List Volume)
    → ArePlain (map (λ h. h ∷ []) handles)
    → dropping (filter (is_leaked (handles_of (handle_table handles))) (map trimmed vs))
      ≡ dropping (filter (is_orphan_volume handles) vs)
unfolding filter
dropping-orphans handles [] h = refl
dropping-orphans handles (v ∷ vs) h =
    let rest = dropping-orphans handles vs h in
    rw (is_leaked-is_orphan_volume handles v h) (elim (Bool-cases (is_orphan_volume handles v)) [
      | inl e ↦ rw e (ap (λ (l : List Command). delete_volume v.name ∷ l) rest)
      | inr e ↦ rw e rest
    ])

module _ (k : Kubectl) where
  open k use {Cluster, run, list_pvs, pvc_phase, list_volumes, volume_handles}

  -- The loop's own test.
  abbrev passes : Cluster → Pv → Bool
  passes t pv = is_candidate pv && not (is_bound k pv.claim_namespace pv.claim_name t)

  -- The commands of the loop that deletes volumes are for the volumes that it finds leaked.
  drop_volumes_exact :
      (handles : List String) (vs : List Volume) (t : Cluster)
      → (drop_volumes k handles vs t).1 ≡ dropping (filter (is_leaked handles) vs)
  unfolding drop_volumes filter
  drop_volumes_exact handles [] t = refl
  drop_volumes_exact handles (v ∷ vs) t = elim (Bool-cases (is_leaked handles v)) [
    | inl h ↦ rw h (
        ap (λ (l : List Command). delete_volume v.name ∷ l)
          (drop_volumes_exact handles vs (run (delete_volume v.name) t).0))
    | inr h ↦ rw h (drop_volumes_exact handles vs t)
  ]

  module _ (obeys : (c : Command) (t : Cluster) → (run c t).1 ≡ none)
      (steady : (ns claim : String) (c : Command) (t : Cluster)
        → pvc_phase ns claim (run c t).0 ≡ pvc_phase ns claim t) where
    passes_steady : (c : Command) (t : Cluster) (pv : Pv) → passes (run c t).0 pv ≡ passes t pv
    unfolding is_bound
    passes_steady c t pv = rw (steady pv.claim_namespace pv.claim_name c t) refl

    -- One round.
    reclaim_exact :
        (pv : Pv) (t : Cluster)
        → ((reclaim k pv t).1 ≡ (if passes t pv then reclaiming (pv ∷ []) else []))
          × ((q : Pv) → passes (reclaim k pv t).0 q ≡ passes t q)
    unfolding reclaim patched
    reclaim_exact pv t = elim (Bool-cases (passes t pv)) [
      | inl h ↦
          let patch = patch_pv pv.name delete_policy in
          let done : Cluster = (run patch t).0 in
          rw (h, obeys patch t)
            (refl, λ q. passes_steady (delete_pv pv.name) done q ∙ passes_steady patch t q)
      | inr h ↦ rw h (refl, λ q. refl)
    ]

    filter_same :
        (t u : Cluster) (pvs : List Pv)
        → ((q : Pv) → passes u q ≡ passes t q)
        → filter (passes u) pvs ≡ filter (passes t) pvs
    unfolding filter
    filter_same t u [] h = refl
    filter_same t u (pv ∷ pvs) h = rw (h pv, filter_same t u pvs h) refl

    reclaim_all_exact :
        (pvs : List Pv) (t : Cluster) → (reclaim_all k pvs t).1 ≡ reclaiming (filter (passes t) pvs)
    unfolding reclaim_all filter
    reclaim_all_exact [] t = refl
    reclaim_all_exact (pv ∷ pvs) t =
        let u = (reclaim k pv t).0 in
        let round = reclaim_exact pv t in
        let rest : (reclaim_all k pvs u).1 ≡ reclaiming (filter (passes t) pvs) =
          reclaim_all_exact pvs u ∙ ap reclaiming (filter_same t u pvs round.1) in
        rw (rest, round.0)
          (elim (Bool-cases (passes t pv)) [ inl h ↦ rw h refl | inr h ↦ rw h refl ])

    -- On a cluster whose kubectl obeys and where the phase of a PVC does not change meanwhile, with these PVs in
    -- the listing, none in a namespace with a slash, and then these Longhorn volumes and handles of PVs:
    -- cleanupOrphanedStorage reclaims exactly the PVs with a name that are Released, whose claim is not
    -- rancher-data in cattle-system and whose PVC is not Bound, in the order of the listing, and switches the
    -- policy of each to Delete before it deletes it. Then it deletes exactly the volumes that have a name, are
    -- detached and have no PV by their status, and whose name is none of the handles.
    pub cleanup_orphaned_storage_exact :
        (t : Cluster) (pvs : List Pv) (vs : List Volume) (handles : List String)
        → ArePlain (map pv_cells pvs)
        → NoSlash pvs
        → ArePlain (map volume_cells vs)
        → ArePlain (map (λ h. h ∷ []) handles)
        → list_pvs t ≡ some (pv_table pvs)
        → list_volumes (reclaim_all k pvs t).0 ≡ some (volume_table vs)
        → volume_handles (reclaim_all k pvs t).0 ≡ handle_table handles
        → (cleanup_orphaned_storage k t).1
          ≡ reclaiming (filter (is_orphan k t) pvs)
            ++ dropping (filter (is_orphan_volume handles) vs)
    unfolding cleanup_orphaned_storage cleanup_orphaned_longhorn_volumes
    cleanup_orphaned_storage_exact t pvs vs handles plain slash plain_vs plain_hs hp hv hh =
        let u = (reclaim_all k pvs t).0 in
        rw (hp, listed_pvs_table pvs plain, hv, volumes_in_table vs plain_vs, hh)
          (rw
            (
              reclaim_all_exact pvs t,
              drop_volumes_exact (handles_of (handle_table handles)) (map trimmed vs) u,
              filter-orphans k t pvs slash,
              dropping-orphans handles vs plain_hs,
            )
            refl)
