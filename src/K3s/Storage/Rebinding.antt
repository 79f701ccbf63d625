-- ===== src/K3s/Storage/Rebinding.antt =====
-- ensureRancherDataPVC of node/internal/services/kubernetes/k3s/server.go.
use cluster_os.Prelude.{
  String, Bool, ◌&&◌, Option, none, some, List, [], ◌∷◌, ◌++◌, ◌==◌, if◌then◌else◌,
}
use cluster_os.Prelude.Errors.{after_text, caused}
use cluster_os.K3s.Storage.{
  Pv, Command, Kubectl, create_namespace, apply, patch_pv, listed_pvs, is_bound,
}

abbrev pub no_claim : String
no_claim = "[{\"op\":\"remove\",\"path\":\"/spec/claimRef\"}]"

abbrev pub namespace_yaml : String
namespace_yaml = "apiVersion: v1\nkind: Namespace\nmetadata:\n  name: cattle-system\n"

pvc_head : String
pvc_head =
    "apiVersion: v1\nkind: PersistentVolumeClaim\nmetadata:\n  name: rancher-data\n  namespace: cattle-system\nspec:\n  accessModes: [\"ReadWriteOnce\"]\n  storageClassName: longhorn-ha\n"

pvc_tail : String
pvc_tail = "  resources:\n    requests:\n      storage: 5Gi\n"

-- The PVC that binds to this PV, and one that binds to any.
unfoldable pub pvc_yaml : String → String
unfolding pvc_head pvc_tail
pvc_yaml pv =
    after_text pvc_head (after_text "  volumeName: " (after_text pv (after_text "\n" pvc_tail)))

unfoldable pub new_pvc_yaml : String
unfolding pvc_head pvc_tail
new_pvc_yaml = after_text pvc_head pvc_tail

unfoldable pub is_rancher_data : Pv → Bool
is_rancher_data pv =
    pv.phase == "Released"
    && pv.claim_namespace == "cattle-system"
    && pv.claim_name == "rancher-data"
    && pv.storage_class == "longhorn-ha"

-- releasedPV
unfoldable pub released_pv : List Pv → String
unfolding is_rancher_data
released_pv [] = ""
released_pv (pv ∷ pvs) = let rest = released_pv pvs in if is_rancher_data pv then pv.name else rest

unfoldable pub listing : Option String → String
listing none = ""
listing (some out) = out

module _ (k : Kubectl) where
  open k use {Cluster, run, list_pvs}

  applied : String → List Command → Cluster × Option String → Cluster × List Command × Option String
  applied what done (t, none) = (t, done, none)
  applied what done (t, some e) = (t, done, some (caused what e))

  -- A failure of the patch is only logged.
  unfoldable pub rebound : String → Cluster → Cluster × List Command × Option String
  unfolding applied pvc_yaml
  rebound pv t =
      applied "re-bind PVC to released PV" (patch_pv pv no_claim ∷ apply (pvc_yaml pv) ∷ [])
        (run (apply (pvc_yaml pv)) (run (patch_pv pv no_claim) t).0)

  unfoldable pub created : Cluster → Cluster × List Command × Option String
  unfolding applied new_pvc_yaml
  created t =
      applied "create rancher-data PVC" (apply new_pvc_yaml ∷ []) (run (apply new_pvc_yaml) t)

  -- With no output, where kubectl fails, no PV is found.
  unfoldable pub claim_data : Cluster → Cluster × List Command × Option String
  unfolding rebound created released_pv listing
  claim_data t =
      let pv = released_pv (listed_pvs (listing (list_pvs t))) in
      if pv == "" then created t else rebound pv t

  -- The namespace is made sure of first.
  unfoldable pub after_namespace : Cluster → Cluster
  after_namespace t = (run (apply namespace_yaml) (run (create_namespace "cattle-system") t).0).0

  after_first :
      List Command → Cluster × List Command × Option String → Cluster × List Command × Option String
  after_first first (t, done, error) = (t, first ++ done, error)

  unfoldable pub ensure_rancher_data_pvc : Cluster → Cluster × List Command × Option String
  unfolding claim_data after_first after_namespace
  ensure_rancher_data_pvc t =
      let u = after_namespace t in
      after_first (create_namespace "cattle-system" ∷ apply namespace_yaml ∷ [])
        (if is_bound k "cattle-system" "rancher-data" u then (u, [], none) else claim_data u)
