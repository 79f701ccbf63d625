-- ===== src/K3s/Storage/Listed.antt =====
-- What is read of the tables that kubectl prints, for node/internal/services/kubernetes/k3s/server.go.
use cluster_os.Prelude.{String, ◌≡◌, refl, ap, List, [], ◌∷◌, map}
use cluster_os.Prelude.Split.{trim_space}
use cluster_os.Prelude.Fields.{split_at}
use cluster_os.Prelude.Tables.{table, ArePlain, split_at-row, split_at-table}
use cluster_os.K3s.Storage.{Pv, Volume, pv_of, pvs_in, listed_pvs, volume_of, volumes_in}

-- The cells that kubectl prints.
abbrev pub pv_cells : Pv → List String
pv_cells pv = pv.name ∷ pv.phase ∷ pv.claim_namespace ∷ pv.claim_name ∷ pv.storage_class ∷ []

abbrev pub pv_table : List Pv → String
pv_table pvs = table (map pv_cells pvs)

-- Every PV is read as it is.
pub listed_pvs_table :
    (pvs : List Pv) → ArePlain (map pv_cells pvs) → listed_pvs (pv_table pvs) ≡ pvs
unfolding listed_pvs pvs_in pv_of table split_at
listed_pvs_table [] h = refl
listed_pvs_table (pv ∷ pvs) h =
    rw (split_at-table (pv_cells pv) (map pv_cells pvs) h.0) (
      rw (split_at-row (pv_cells pv) h.0) (ap (λ (l : List Pv). pv ∷ l) (listed_pvs_table pvs h.1)))

abbrev pub volume_cells : Volume → List String
volume_cells v = v.name ∷ v.state ∷ v.pv_name ∷ []

abbrev pub volume_table : List Volume → String
volume_table vs = table (map volume_cells vs)

abbrev pub trimmed : Volume → Volume
trimmed v = record v { pv_name = trim_space v.pv_name }

-- Every volume is read but for the spaces around the name of its PV.
pub volumes_in_table :
    (vs : List Volume)
    → ArePlain (map volume_cells vs)
    → volumes_in (split_at 10 (volume_table vs)) ≡ map trimmed vs
unfolding volumes_in volume_of table split_at
volumes_in_table [] h = refl
volumes_in_table (v ∷ vs) h = rw (split_at-table (volume_cells v) (map volume_cells vs) h.0) (
    rw (split_at-row (volume_cells v) h.0)
      (ap (λ (l : List Volume). trimmed v ∷ l) (volumes_in_table vs h.1)))
