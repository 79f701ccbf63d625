-- ===== src/K3s/Storage/Orphan.antt =====
-- Which PVs and Longhorn volumes are orphans, in the terms of Kubernetes, and that the guards of
-- node/internal/services/kubernetes/k3s/server.go find them.
use mathlib.Core.Option.{some-injective}
use cluster_os.Prelude.{
  String, ◌≡◌, refl, sym, ap, ◌∙◌, Bool, true, false, ◌&&◌, not, some, List, [], ◌∷◌, ◌==◌, inl,
  inr, arith, filter, map, elem, Bool-cases, Bool-antisymm, eq_iff, and_true, false≢true,
}
use cluster_os.Prelude.Errors.{after_text}
use cluster_os.Prelude.Split.{trim_space}
use cluster_os.Prelude.Words.{cut, cut-append, IsUncut}
use cluster_os.Prelude.Fields.{after_one, split_at}
use cluster_os.Prelude.Tables.{table, ArePlain, split_at-table}
use cluster_os.K3s.Storage.{
  Pv, Volume, Kubectl, is_managed, is_candidate, is_bound, is_leaked, handles_of,
}

-- A namespace has no slash.
abbrev pub NoSlash : List Pv → Type 0
NoSlash [] = Unit
NoSlash (pv ∷ pvs) = IsUncut 47 pv.claim_namespace × NoSlash pvs

-- The claim is that of the data of Rancher.
abbrev pub claims_rancher_data : Pv → Bool
claims_rancher_data pv = pv.claim_namespace == "cattle-system" && pv.claim_name == "rancher-data"

-- A released PV with a name, not of the data of Rancher, whose PVC is not bound.
abbrev pub is_orphan : (k : Kubectl) → k.Cluster → Pv → Bool
is_orphan k t pv =
    not (pv.name == "")
    && pv.phase == "Released"
    && not (claims_rancher_data pv)
    && not (trim_space (k.pvc_phase pv.claim_namespace pv.claim_name t) == "Bound")

-- A detached volume with a name and no PV by its status, whose name is no handle of a PV.
abbrev pub is_orphan_volume : List String → Volume → Bool
is_orphan_volume handles v =
    not (v.name == "")
    && v.state == "detached"
    && trim_space v.pv_name == ""
    && not (elem v.name (map trim_space handles))

key_cut : cut 47 "cattle-system/rancher-data" ≡ some ("cattle-system", "rancher-data")
unfolding cut
key_cut = refl

key_joined :
    after_text "cattle-system" (after_text "/" "rancher-data") ≡ "cattle-system/rancher-data"
unfolding after_text
key_joined = refl

-- The key of a claim is that of the data of Rancher exactly if its two parts are.
is_managed-claims_rancher_data :
    (pv : Pv) → IsUncut 47 pv.claim_namespace → is_managed pv ≡ claims_rancher_data pv
unfolding is_managed
is_managed-claims_rancher_data pv plain =
    Bool-antisymm _ _
      (λ h.
        let same =
          sym (ap (after_text pv.claim_namespace) (after_one "/" pv.claim_name))
          ∙ (eq_iff _ "cattle-system/rancher-data").0 h in
        let parts : (pv.claim_namespace, pv.claim_name) ≡ ("cattle-system", "rancher-data") =
          some-injective _ _ (
            sym (cut-append 47 "/" pv.claim_namespace pv.claim_name refl plain)
            ∙ (ap (cut 47) same ∙ key_cut)) in
        let ns = (eq_iff _ _).1 (ap (λ (p : String × String). p.0) parts) in
        let claim = (eq_iff _ _).1 (ap (λ (p : String × String). p.1) parts) in rw (ns, claim) refl)
      (λ h.
        let (ns, claim) = and_true _ _ h in
        (eq_iff _ _).1 (
          ap (λ s. after_text s (after_text "/" pv.claim_name)) ((eq_iff _ _).0 ns)
          ∙ (ap (λ s. after_text "cattle-system" (after_text "/" s)) ((eq_iff _ _).0 claim)
              ∙ key_joined)))

pub guards-is_orphan :
    (k : Kubectl) (t : k.Cluster) (pv : Pv)
    → IsUncut 47 pv.claim_namespace
    → (is_candidate pv && not (is_bound k pv.claim_namespace pv.claim_name t)) ≡ is_orphan k t pv
unfolding is_candidate is_bound
guards-is_orphan k t pv plain = rw (is_managed-claims_rancher_data pv plain) (ground arith)

-- The lines of the handles that kubectl prints.
abbrev pub handle_table : List String → String
handle_table handles = table (map (λ h. h ∷ []) handles)

differs : (s name : String) → (s == "") ≡ true → (name == "") ≡ false → (s == name) ≡ false
differs s name e named = elim (Bool-cases (s == name)) [
  | inl same ↦
      let empty = sym ((eq_iff s name).0 same) ∙ (eq_iff s "").0 e in
      absurd (false≢true (sym named ∙ (eq_iff name "").1 empty))
  | inr other ↦ other
]

-- A name is among the handles that are read exactly if it is one of them but for the spaces around it.
elem-handles_of :
    (name : String) (handles : List String)
    → (name == "") ≡ false
    → ArePlain (map (λ h. h ∷ []) handles)
    → elem name (handles_of (handle_table handles)) ≡ elem name (map trim_space handles)
unfolding handles_of elem filter table split_at trim_space
elem-handles_of name [] named plain = refl
elem-handles_of name (h ∷ hs) named plain =
    let rest = elem-handles_of name hs named plain.1 in
    rw (split_at-table (h ∷ []) (map (λ g. g ∷ []) hs) plain.0)
      (elim (Bool-cases (trim_space h == "")) [
        | inl e ↦
            let other : (trim_space h == name) ≡ false = differs (trim_space h) name e named in
            rw (e, other) rest
        | inr e ↦ rw (e, rest) refl
      ])

pub is_leaked-is_orphan_volume :
    (handles : List String) (v : Volume)
    → ArePlain (map (λ h. h ∷ []) handles)
    → is_leaked (handles_of (handle_table handles)) (record v { pv_name = trim_space v.pv_name })
      ≡ is_orphan_volume handles v
unfolding is_leaked
is_leaked-is_orphan_volume handles v plain = elim (Bool-cases (v.name == "")) [
  | inl e ↦ rw e refl
  | inr e ↦ rw (elem-handles_of v.name handles e plain) refl
]
