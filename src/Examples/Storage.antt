-- ===== src/Examples/Storage.antt =====
-- A cluster with an orphaned PV, the PV of the data of Rancher, and a leaked volume.
use cluster_os.Prelude.Words.{IsUncut}
use cluster_os.Prelude.{
  String, ◌≡◌, refl, sym, ap, subst, ◌∙◌, false, none, some, List, [], ◌∷◌, ◌++◌, filter, map, elem,
}
use cluster_os.Prelude.Errors.{after_text}
use cluster_os.Prelude.Split.{trim_space}
use cluster_os.Prelude.Fields.{split_at}
use cluster_os.Prelude.Tables.{table, ArePlain, are_plain-ArePlain}
use cluster_os.K3s.Storage.{
  Pv, Volume, Command, Kubectl, create_namespace, apply, patch_pv, delete_pv, delete_volume,
  delete_policy, listed_pvs, is_bound, cleanup_orphaned_storage,
}
use cluster_os.K3s.Storage.Rebinding.{
  no_claim, namespace_yaml, pvc_yaml, released_pv, after_namespace, ensure_rancher_data_pvc,
}
use cluster_os.K3s.Storage.Listed.{pv_table, pv_cells, listed_pvs_table, volume_table, volume_cells}
use cluster_os.K3s.Storage.Orphan.{NoSlash, is_orphan, is_orphan_volume, handle_table}
use cluster_os.K3s.Storage.Orphans.{reclaiming, dropping, cleanup_orphaned_storage_exact}
use cluster_os.K3s.Storage.Kept.{AreDistinct, some_changes, rancher_data_kept}

abbrev orphan_pv : Pv
orphan_pv = record {
  name = "pvc-1";
  phase = "Released";
  claim_namespace = "default";
  claim_name = "data";
  storage_class = "longhorn";
}

abbrev rancher : Pv
rancher = record {
  name = "pvc-2";
  phase = "Released";
  claim_namespace = "cattle-system";
  claim_name = "rancher-data";
  storage_class = "longhorn-ha";
}

abbrev used : Pv
used = record {
  name = "pvc-3";
  phase = "Bound";
  claim_namespace = "default";
  claim_name = "web";
  storage_class = "longhorn";
}

abbrev pvs : List Pv
pvs = used ∷ orphan_pv ∷ rancher ∷ []

abbrev leaked : Volume
leaked = record { name = "pvc-0"; state = "detached"; pv_name = "" }

abbrev attached : Volume
attached = record { name = "pvc-3"; state = "attached"; pv_name = "pvc-3" }

abbrev volumes : List Volume
volumes = attached ∷ leaked ∷ []

abbrev handles : List String
handles = "pvc-3" ∷ []

-- The cluster is the list of the commands so far.
abbrev obedient : Kubectl
obedient = record {
  Cluster = List Command;
  run = λ c t. (t ++ (c ∷ []), none);
  list_pvs = λ t. some (pv_table pvs);
  pvc_phase = λ ns claim t. "Pending";
  list_volumes = λ t. some (volume_table volumes);
  volume_handles = λ t. handle_table handles;
}

plain_pvs : ArePlain (map pv_cells pvs)
plain_pvs = are_plain-ArePlain (map pv_cells pvs) refl

plain_volumes : ArePlain (map volume_cells volumes)
plain_volumes = are_plain-ArePlain (map volume_cells volumes) refl

collected :
    (cleanup_orphaned_storage obedient []).1
    ≡ patch_pv "pvc-1" delete_policy ∷ delete_pv "pvc-1" ∷ delete_volume "pvc-0" ∷ []
unfolding cleanup_orphaned_storage split_at table after_text trim_space elem filter
collected = refl

plain_handles : ArePlain (map (λ h. h ∷ []) handles)
plain_handles = are_plain-ArePlain (map (λ h. h ∷ []) handles) refl

no_slash : NoSlash pvs
no_slash =
    let default : IsUncut 47 "default" =
      (refl, (refl, (refl, (refl, (refl, (refl, (refl, tt))))))) in
    (
      default,
      (
        default,
        (
          (
            refl,
            (
              refl,
              (
                refl,
                (refl, (refl, (refl, (refl, (refl, (refl, (refl, (refl, (refl, (refl, tt)))))))))),
              ),
            ),
          ),
          tt,
        ),
      ),
    )

cleanup_orphaned_storage_exact_example :
    (cleanup_orphaned_storage obedient []).1
    ≡ reclaiming (filter (is_orphan obedient []) pvs)
      ++ dropping (filter (is_orphan_volume handles) volumes)
cleanup_orphaned_storage_exact_example =
    cleanup_orphaned_storage_exact obedient (λ c t. refl) (λ ns claim c t. refl) [] pvs volumes
      handles plain_pvs no_slash plain_volumes plain_handles refl refl refl

unbound : is_bound obedient "cattle-system" "rancher-data" (after_namespace obedient []) ≡ false
unfolding is_bound trim_space
unbound = refl

listed : listed_pvs (pv_table pvs) ≡ pvs
listed = listed_pvs_table pvs plain_pvs

distinct : AreDistinct pvs
unfolding elem
distinct = (refl, (refl, (refl, tt)))

found : released_pv pvs ≡ "pvc-2"
unfolding released_pv
found = refl

rancher_data_kept_example :
    (some_changes "pvc-2" (cleanup_orphaned_storage obedient []).1 ≡ false)
    × ((ensure_rancher_data_pvc obedient []).1
        ≡ create_namespace "cattle-system"
          ∷ apply namespace_yaml
          ∷ patch_pv "pvc-2" no_claim
          ∷ apply (pvc_yaml "pvc-2")
          ∷ [])
rancher_data_kept_example =
    rancher_data_kept obedient "pvc-2" (pv_table pvs) [] refl refl unbound
      (subst AreDistinct (sym listed) distinct) (ap released_pv listed ∙ found) refl
