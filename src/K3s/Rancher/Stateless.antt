-- ===== src/K3s/Rancher/Stateless.antt =====
-- The volume that ensureRancherStateless of node/internal/services/kubernetes/k3s/server.go takes away.
use cluster_os.Prelude.{
  String, ◌≡◌, refl, sym, ap, subst, ◌∙◌, false, Option, none, some, List, inl, inr, Bool-cases,
  ◌==◌, is_some, false≢true,
}
use cluster_os.Prelude.Split.{trim_space}
use cluster_os.K3s.Rancher.{
  Api, calls, Trace, doing, ensure_rancher_stateless, without_volume, remove_volume, three_replicas,
  patch_url, after_install,
}
use cluster_os.K3s.Rancher.Urls.{rollouts, onward, onward-Keeps, replicas-Keeps}

module _ (api : Api)
    (keeps : (args : List String) (text : String) (t : api.Cluster)
      → api.data_volume (api.run (calls args text) t).0 ≡ api.data_volume t)
    (removes : (t : api.Cluster)
      → (trim_space (api.data_volume (api.run remove_volume t).0) == "rancher-data") ≡ false) where
  -- The pods do not have the volume.
  abbrev pub IsBare : Trace api → Type 0
  IsBare done = (trim_space (api.data_volume done.0) == "rancher-data") ≡ false

  pub same-IsBare :
      (a b : Trace api) → api.data_volume b.0 ≡ api.data_volume a.0 → IsBare a → IsBare b
  same-IsBare a b same h = subst (λ v. (trim_space v == "rancher-data") ≡ false) (sym same) h

  without_volume-IsBare : (done : Trace api) → IsBare (without_volume api done)
  unfolding without_volume doing
  without_volume-IsBare done =
      elim (Bool-cases (trim_space (api.data_volume done.0) == "rancher-data")) [
        | inl e ↦ rw e (removes done.0)
        | inr e ↦ rw e e
      ]

  -- What the steps after an installation leave, if there was no error before them.
  pub after-IsBare :
      (url later : String) (x : Trace api × Option String) (done : Trace api)
      → after_install api url later x ≡ (done, none)
      → IsBare done
  unfolding after_install ensure_rancher_stateless onward
  after-IsBare url later (d, some e) done result =
      absurd (false≢true (sym (ap (λ (y : Trace api × Option String). is_some y.1) result)))
  after-IsBare url later (d, none) done result =
      let bare = without_volume api (onward api url later d) in
      let replicas = doing api three_replicas bare in
      subst IsBare (ap (λ (y : Trace api × Option String). y.0) result) (
        same-IsBare bare replicas (replicas-Keeps api api.data_volume keeps bare).0
          (without_volume-IsBare (onward api url later d)))

  -- After the patch of the URL there is no rollout more, if the pods do not have the volume.
  pub end_rollouts :
      (url later : String) (done : Trace api)
      → IsBare (patch_url api url done)
      → rollouts (after_install api url later (done, none)).0.1
        ≡ rollouts (patch_url api url done).1
  unfolding after_install ensure_rancher_stateless without_volume onward
  end_rollouts url later done h =
      let kept = onward-Keeps api api.data_volume keeps url later done in
      let there = onward api url later done in
      let still = same-IsBare (patch_url api url done) there kept.0 h in
      let same : without_volume api there ≡ there = rw still refl in
      (replicas-Keeps api api.data_volume keeps (without_volume api there)).1
      ∙ (ap (λ (d : Trace api). rollouts d.1) same ∙ kept.1)
