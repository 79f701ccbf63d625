-- ===== src/K3s/Storage.antt =====
-- Storage of the cluster: cleanupOrphanedStorage and cleanupOrphanedLonghornVolumes of
-- node/internal/services/kubernetes/k3s/server.go, and in the child Rebinding ensureRancherDataPVC. What they log
-- is left out.
use cluster_os.Prelude.{
  String, Bool, true, false, ◌&&◌, not, Option, none, some, List, [], ◌∷◌, ◌++◌, ◌==◌,
  if◌then◌else◌, filter, map, elem,
}
use cluster_os.Prelude.Errors.{after_text}
use cluster_os.Prelude.Split.{trim_space}
use cluster_os.Prelude.Fields.{split_at}
pub mod Rebinding
pub mod Listed
pub mod Orphan
pub mod Orphans
pub mod Kept

-- A line of `kubectl get pv` with the five fields that are asked for.
pub record Pv : Type 0 where
  pub name : String
  pub phase : String
  pub claim_namespace : String
  pub claim_name : String
  pub storage_class : String

-- A line of `kubectl get volumes.longhorn.io`.
pub record Volume : Type 0 where
  pub name : String
  pub state : String
  pub pv_name : String

-- kubectl create namespace with a dry run, apply, patch and delete
pub data Command : Type 0 where
  create_namespace apply : String → Command
  patch_pv : String → String → Command
  delete_pv delete_volume : String → Command

-- kubectl of the cluster: what it prints, or nothing where it fails, and the error of a command, with its
-- output.
pub record Kubectl : Type 1 where
  pub Cluster : Type 0
  pub run : Command → Cluster → Cluster × Option String
  pub list_pvs : Cluster → Option String
  pub pvc_phase : String → String → Cluster → String
  pub list_volumes : Cluster → Option String
  pub volume_handles : Cluster → String

-- A line with fewer fields is passed over.
unfoldable pub pv_of : List String → List Pv
pv_of (name ∷ phase ∷ ns ∷ claim ∷ sc ∷ more) =
    record {
      name = name;
      phase = phase;
      claim_namespace = ns;
      claim_name = claim;
      storage_class = sc;
    }
    ∷ []
pv_of _ = []

unfoldable pub pvs_in : List String → List Pv
unfolding pv_of
pvs_in [] = []
pvs_in (line ∷ lines) = pv_of (split_at 9 line) ++ pvs_in lines

unfoldable pub listed_pvs : String → List Pv
unfolding pvs_in
listed_pvs out = pvs_in (split_at 10 out)

unfoldable pub volume_of : List String → List Volume
volume_of (name ∷ state ∷ pv ∷ more) =
    record { name = name; state = state; pv_name = trim_space pv } ∷ []
volume_of _ = []

unfoldable pub volumes_in : List String → List Volume
unfolding volume_of
volumes_in [] = []
volumes_in (line ∷ lines) = volume_of (split_at 9 line) ++ volumes_in lines

unfoldable pub is_managed : Pv → Bool
is_managed pv =
    after_text pv.claim_namespace (after_text "/" pv.claim_name) == "cattle-system/rancher-data"

-- A PV that may be reclaimed if its PVC is not bound.
unfoldable pub is_candidate : Pv → Bool
unfolding is_managed
is_candidate pv = not (pv.name == "") && pv.phase == "Released" && not (is_managed pv)

-- pvHandles
unfoldable pub handles_of : String → List String
handles_of out = filter (λ h. not (h == "")) (map trim_space (split_at 10 out))

unfoldable pub is_leaked : List String → Volume → Bool
is_leaked handles v =
    not (v.name == "") && v.state == "detached" && v.pv_name == "" && not (elem v.name handles)

abbrev pub delete_policy : String
delete_policy =
    "[{\"op\":\"replace\",\"path\":\"/spec/persistentVolumeReclaimPolicy\",\"value\":\"Delete\"}]"

module _ (k : Kubectl) where
  open k use {Cluster, run, list_pvs, pvc_phase, list_volumes, volume_handles}

  unfoldable pub is_bound : String → String → Cluster → Bool
  is_bound ns claim t = trim_space (pvc_phase ns claim t) == "Bound"

  -- After the patch of the reclaim policy.
  unfoldable pub patched : Pv → Cluster × Option String → Cluster × List Command
  patched pv (t, some e) = (t, patch_pv pv.name delete_policy ∷ [])
  patched pv (t, none) =
      ((run (delete_pv pv.name) t).0, patch_pv pv.name delete_policy ∷ delete_pv pv.name ∷ [])

  -- The loop's body: the cluster after it and the commands of it, as for all functions here.
  unfoldable pub reclaim : Pv → Cluster → Cluster × List Command
  unfolding patched is_candidate is_bound
  reclaim pv t =
      if is_candidate pv && not (is_bound pv.claim_namespace pv.claim_name t)
      then patched pv (run (patch_pv pv.name delete_policy) t)
      else (t, [])

  unfoldable pub reclaim_all : List Pv → Cluster → Cluster × List Command
  unfolding reclaim
  reclaim_all [] t = (t, [])
  reclaim_all (pv ∷ pvs) t =
      let (u, first) = reclaim pv t in let (v, rest) = reclaim_all pvs u in (v, first ++ rest)

  unfoldable pub drop_volumes : List String → List Volume → Cluster → Cluster × List Command
  unfolding is_leaked
  drop_volumes handles [] t = (t, [])
  drop_volumes handles (v ∷ vs) t =
      let (u, rest) = drop_volumes handles vs (run (delete_volume v.name) t).0 in
      let passed_over = drop_volumes handles vs t in
      if is_leaked handles v then (u, delete_volume v.name ∷ rest) else passed_over

  volumes_listed : Option String → Cluster → Cluster × List Command
  unfolding drop_volumes volumes_in handles_of
  volumes_listed none t = (t, [])
  volumes_listed (some out) t =
      drop_volumes (handles_of (volume_handles t)) (volumes_in (split_at 10 out)) t

  unfoldable pub cleanup_orphaned_longhorn_volumes : Cluster → Cluster × List Command
  unfolding volumes_listed
  cleanup_orphaned_longhorn_volumes t = volumes_listed (list_volumes t) t

  pvs_listed : Option String → Cluster → Cluster × List Command
  unfolding reclaim_all listed_pvs cleanup_orphaned_longhorn_volumes
  pvs_listed none t = (t, [])
  pvs_listed (some out) t =
      let (u, first) = reclaim_all (listed_pvs out) t in
      let (v, rest) = cleanup_orphaned_longhorn_volumes u in (v, first ++ rest)

  unfoldable pub cleanup_orphaned_storage : Cluster → Cluster × List Command
  unfolding pvs_listed
  cleanup_orphaned_storage t = pvs_listed (list_pvs t) t
