-- ===== src/K3s/Rancher/Urls.antt =====
-- What the commands of deployRancher (node/internal/services/kubernetes/k3s/server.go) leave alone.
use cluster_os.Prelude.{
  String, ◌≡◌, refl, ap, ◌∙◌, Bool, true, false, ◌&&◌, not, none, List, [], ◌∷◌, ◌++◌, ◌==◌,
  if◌then◌else◌, if-both,
}
use cluster_os.Prelude.Split.{trim_space}
use cluster_os.K3s.Rancher.{
  Act, Api, calls, patches_template, sets_url, helm_install, Trace, doing, doing_all,
  ensure_rancher_bootstrap_secret, ensure_rancher_stateless, kubectl, applies, secret_yaml,
  namespace_yaml, ingress_acts, expose_acts, remove_volume, three_replicas, without_volume,
  patch_url, reconcile_ingress, expose_rancher, after_install,
}

-- The commands that replace the pods of Rancher.
abbrev pub rollouts : List Act → List Act
rollouts [] = []
rollouts (calls args text ∷ acts) = rollouts acts
rollouts (act ∷ acts) = act ∷ rollouts acts

-- One more command on something else is none of them.
rollouts-calls :
    (log : List Act) (args : List String) (text : String)
    → rollouts (log ++ (calls args text ∷ [])) ≡ rollouts log
rollouts-calls [] args text = refl
rollouts-calls (sets_url u ∷ log) args text =
    ap (λ (l : List Act). sets_url u ∷ l) (rollouts-calls log args text)
rollouts-calls (patches_template u ∷ log) args text =
    ap (λ (l : List Act). patches_template u ∷ l) (rollouts-calls log args text)
rollouts-calls (helm_install h u ∷ log) args text =
    ap (λ (l : List Act). helm_install h u ∷ l) (rollouts-calls log args text)
rollouts-calls (calls xs y ∷ log) args text = rollouts-calls log args text

-- Commands on something else.
abbrev pub AreCalls : List Act → Type 0
AreCalls [] = Unit
AreCalls (calls args text ∷ acts) = AreCalls acts
AreCalls (act ∷ acts) = ⊥

-- What follows the patch of the URL and comes before the pods are made stateless.
unfoldable pub onward : (api : Api) → String → String → Trace api → Trace api
onward api url later done =
    expose_rancher api (reconcile_ingress api later (patch_url api url done))

module _ (api : Api) (view : api.Cluster → String)
    (keeps : (args : List String) (text : String) (t : api.Cluster)
      → view (api.run (calls args text) t).0 ≡ view t) where
  open api use {Cluster, run}

  -- What is viewed and the rollouts are as before.
  abbrev pub Keeps : Trace api → Trace api → Type 0
  Keeps (t, log) (u, more) = (view u ≡ view t) × (rollouts more ≡ rollouts log)

  doing-Keeps :
      (args : List String) (text : String) (done : Trace api)
      → Keeps done (doing api (calls args text) done)
  unfolding doing
  doing-Keeps args text (t, log) = (keeps args text t, rollouts-calls log args text)

  Keeps-trans : (a b c : Trace api) → Keeps a b → Keeps b c → Keeps a c
  Keeps-trans a b c h k = (k.0 ∙ h.0, k.1 ∙ h.1)

  Keeps-if :
      (test : Bool) (a b c : Trace api) → Keeps a b → Keeps a c → Keeps a (if test then b else c)
  Keeps-if true a b c h k = h
  Keeps-if false a b c h k = k

  all-Keeps :
      (acts : List Act) (done : Trace api) → AreCalls acts → Keeps done (doing_all api acts done)
  unfolding doing_all
  all-Keeps [] done h = (refl, refl)
  all-Keeps (calls args text ∷ acts) done h =
      let next = doing api (calls args text) done in
      Keeps-trans done next (doing_all api acts next) (doing-Keeps args text done)
        (all-Keeps acts next h)
  all-Keeps (sets_url url ∷ acts) done h = absurd h
  all-Keeps (patches_template json ∷ acts) done h = absurd h
  all-Keeps (helm_install host url ∷ acts) done h = absurd h

  one-Keeps : (act : Act) (done : Trace api) → AreCalls (act ∷ []) → Keeps done (doing api act done)
  one-Keeps (calls args text) done h = doing-Keeps args text done
  one-Keeps (sets_url url) done h = absurd h
  one-Keeps (patches_template json) done h = absurd h
  one-Keeps (helm_install host url) done h = absurd h

  pub bootstrap-Keeps :
      (password : String) (done : Trace api)
      → Keeps done (ensure_rancher_bootstrap_secret api password done)
  unfolding ensure_rancher_bootstrap_secret applies
  bootstrap-Keeps password done =
      let named = doing api (applies namespace_yaml) done in
      let secret = doing api (applies (secret_yaml password)) named in
      let first = one-Keeps (applies namespace_yaml) done tt in
      Keeps-if (api.has_secret named.0) done named secret first
        (Keeps-trans done named secret first (one-Keeps (applies (secret_yaml password)) named tt))

  reconcile-Keeps :
      (domain : String) (done : Trace api) → Keeps done (reconcile_ingress api domain done)
  unfolding reconcile_ingress ingress_acts kubectl
  reconcile-Keeps domain done =
      Keeps-if (not (domain == "") && api.has_ingress done.0) done (doing_all api ingress_acts done)
        done (all-Keeps ingress_acts done tt) (refl, refl)

  expose-Keeps : (done : Trace api) → Keeps done (expose_rancher api done)
  unfolding expose_rancher expose_acts kubectl applies
  expose-Keeps done = all-Keeps expose_acts done tt

  pub replicas-Keeps : (done : Trace api) → Keeps done (doing api three_replicas done)
  unfolding three_replicas kubectl
  replicas-Keeps done = one-Keeps three_replicas done tt

  pub onward-Keeps :
      (url later : String) (done : Trace api)
      → Keeps (patch_url api url done) (onward api url later done)
  unfolding onward
  onward-Keeps url later done =
      let one = patch_url api url done in
      let two = reconcile_ingress api later one in
      Keeps-trans one two (expose_rancher api two) (reconcile-Keeps later one) (expose-Keeps two)

  -- If a patch of the template keeps it too, the rest of the function keeps it.
  pub end_view :
      (url later : String) (done : Trace api)
      → ((json : String) (t : Cluster) → view (run (patches_template json) t).0 ≡ view t)
      → view (after_install api url later (done, none)).0.0 ≡ view (patch_url api url done).0
  unfolding after_install ensure_rancher_stateless without_volume remove_volume onward
  end_view url later done template =
      let there = onward api url later done in
      let kept = (onward-Keeps url later done).0 in
      let bare = without_volume api there in
      let same : view bare.0 ≡ view there.0 =
        if-both (λ (d : Trace api). view d.0 ≡ view there.0)
          (trim_space (api.data_volume there.0) == "rancher-data") _ _ (λ e. template _ there.0)
          (λ e. refl) in
      (replicas-Keeps bare).0 ∙ (same ∙ kept)
