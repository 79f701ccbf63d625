-- ===== src/K3s/Rancher/Settled.antt =====
-- When deployRancher of node/internal/services/kubernetes/k3s/server.go changes the URL of Rancher.
use cluster_os.Prelude.{
  String, ◌≡◌, refl, sym, ap, subst, ◌⊎◌, is_some, ◌∙◌, true, false, ◌&&◌, not, Option, none, some,
  List, [], inl, inr, Bool-cases, ◌==◌, eq_iff, if◌then◌else◌, false≢true,
}
use cluster_os.Prelude.Split.{trim_space}
use cluster_os.Prelude.Words.{contains}
use cluster_os.K3s.Rancher.{
  Api, calls, patches_template, remove_volume, sets_url, Trace, doing,
  ensure_rancher_bootstrap_secret, install_rancher, patch_url, after_install, deploy_rancher,
}
use cluster_os.K3s.Domain.{read_cloudflare_domain, rancher_host, rancher_url, effective_url}
use cluster_os.K3s.Rancher.Urls.{rollouts, bootstrap-Keeps, end_view}
use cluster_os.K3s.Rancher.Stateless.{IsBare, same-IsBare, after-IsBare, end_rollouts}

effective-contains :
    (url current : String)
    → (current == "") ≡ false
    → contains current ".nip.io" ≡ false
    → contains (effective_url url current) ".nip.io" ≡ false
unfolding effective_url
effective-contains url current some_url own = elim (Bool-cases (contains url ".nip.io")) [
  | inl h ↦ rw (h, some_url, own) own
  | inr h ↦ rw h h
]

-- Where the URL in effect is the one that was chosen, it is chosen again.
effective_same : (url : String) → effective_url url url ≡ url
unfolding effective_url
effective_same url =
    elim (Bool-cases (contains url ".nip.io" && not (url == "") && not (contains url ".nip.io"))) [
      | inl h ↦ rw h refl
      | inr h ↦ rw h refl
    ]

effective-cases :
    (url current : String)
    → (effective_url url current ≡ url) ⊎ (effective_url url current ≡ current)
unfolding effective_url
effective-cases url current =
    elim (Bool-cases
      (contains url ".nip.io" && not (current == "") && not (contains current ".nip.io"))) [
        | inl h ↦ inr (rw h refl)
        | inr h ↦ inl (rw h refl)
      ]

after_none :
    (api : Api) (url later : String) (d : Trace api)
    → (after_install api url later (d, none)).1 ≡ none
unfolding after_install
after_none api url later d = refl

module _ (api : Api) where
  open api use {Cluster, run, is_installed, current_url, data_volume}

  -- currentURL
  abbrev pub current : Trace api → String
  current done = trim_space (current_url done.0)

  -- The URL is the one that would be set.
  abbrev IsSettled : String → Trace api → Type 0
  IsSettled url done = (current done == effective_url url (current done)) ≡ true

  patch_url-settled :
      (url : String) (done : Trace api) → IsSettled url done → patch_url api url done ≡ done
  unfolding patch_url
  patch_url-settled url done h = rw h refl

  patch_url-sets :
      (url : String) (done : Trace api)
      → (current done == effective_url url (current done)) ≡ false
      → patch_url api url done ≡ doing api (sets_url (effective_url url (current done))) done
  unfolding patch_url
  patch_url-sets url done h = rw h refl

  module _
      (keeps : (args : List String) (text : String) (t : Cluster)
        → current_url (run (calls args text) t).0 ≡ current_url t)
      (template : (json : String) (t : Cluster)
        → current_url (run (patches_template json) t).0 ≡ current_url t) where
    -- On a cluster with Rancher.
    deploy-installed :
        (env later : Option String) (node_ip password : String) (t : Cluster)
        → is_installed t ≡ true
        → deploy_rancher api env later node_ip password t
          ≡ after_install api
              (rancher_url (read_cloudflare_domain env) node_ip)
              (read_cloudflare_domain later)
              (ensure_rancher_bootstrap_secret api password (t, []), none)
    unfolding deploy_rancher
    deploy-installed env later node_ip password t h = rw h refl

    module _
        (sets : (url : String) (t : Cluster) → current_url (run (sets_url url) t).0 ≡ url) where
      settled :
          (url : String) (done : Trace api)
          → trim_space url ≡ url
          → IsSettled url (patch_url api url done)
      unfolding doing
      settled url done plain =
          let effective = effective_url url (current done) in
          let next = doing api (sets_url effective) done in
          elim (Bool-cases (current done == effective)) [
            | inl h ↦ subst (IsSettled url) (sym (patch_url-settled url done h)) h
            | inr h ↦ elim (effective-cases url (current done)) [
              | inl e ↦
                  let now : current next ≡ url =
                    ap trim_space (sets effective done.0 ∙ e) ∙ plain in
                  let good : IsSettled url next =
                    subst (λ s. (s == effective_url url s) ≡ true) (sym now)
                      ((eq_iff url (effective_url url url)).1 (sym (effective_same url))) in
                  subst (IsSettled url) (sym (patch_url-sets url done h)) good
              | inr e ↦ absurd (false≢true (sym h ∙ (eq_iff (current done) effective).1 (sym e)))
            ]
          ]

      -- The patch leaves a URL that is not one of nip.io where the one before it is not.
      patch_url-own :
          (new : String) (done : Trace api)
          → trim_space new ≡ new
          → (current done == "") ≡ false
          → contains (current done) ".nip.io" ≡ false
          → contains (current (patch_url api new done)) ".nip.io" ≡ false
      unfolding doing
      patch_url-own new done plain some_url own =
          let effective = effective_url new (current done) in
          let next = doing api (sets_url effective) done in
          let chosen = effective-contains new (current done) some_url own in
          let goal = λ (d : Trace api). contains (current d) ".nip.io" ≡ false in
          elim (Bool-cases (current done == effective)) [
            | inl h ↦ subst goal (sym (patch_url-settled new done h)) own
            | inr h ↦
                let clean : contains (trim_space effective) ".nip.io" ≡ false =
                  elim (effective-cases new (current done)) [
                    | inl e ↦
                        let same : trim_space effective ≡ effective =
                          ap trim_space e ∙ plain ∙ sym e in
                        ap (λ (s : String). contains s ".nip.io") same ∙ chosen
                    | inr e ↦
                        absurd (false≢true (sym h ∙ (eq_iff (current done) effective).1 (sym e)))
                  ] in
                let now : current next ≡ trim_space effective =
                  ap trim_space (sets effective done.0) in
                subst goal (sym (patch_url-sets new done h))
                  (ap (λ (s : String). contains s ".nip.io") now ∙ clean)
          ]

      -- Where Rancher is installed with a URL that is not one of nip.io, it has such a URL after deployRancher
      -- too, whatever deployRancher reads of the domain and the address, if setting the URL works and no command
      -- other than helm's changes it, and the URL of that domain and address has no spaces around it.
      pub own_domain_kept :
          (env later : Option String) (node_ip password : String) (t : Cluster)
          → trim_space (rancher_url (read_cloudflare_domain env) node_ip)
            ≡ rancher_url (read_cloudflare_domain env) node_ip
          → is_installed t ≡ true
          → (trim_space (current_url t) == "") ≡ false
          → contains (trim_space (current_url t)) ".nip.io" ≡ false
          → contains
              (trim_space (current_url (deploy_rancher api env later node_ip password t).0.0))
              ".nip.io"
            ≡ false
      own_domain_kept env later node_ip password t plain there some_url own =
          let url = rancher_url (read_cloudflare_domain env) node_ip in
          let ready = ensure_rancher_bootstrap_secret api password (t, []) in
          let kept = bootstrap-Keeps api current_url keeps password (t, []) in
          let ended =
            end_view api current_url keeps url (read_cloudflare_domain later) ready template in
          let same : current ready ≡ trim_space (current_url t) = ap trim_space kept.0 in
          let patched =
            patch_url-own url ready plain (ap (λ (s : String). s == "") same ∙ some_url)
              (ap (λ (s : String). contains s ".nip.io") same ∙ own) in
          ap (λ (d : Trace api × Option String). contains (current d.0) ".nip.io")
            (deploy-installed env later node_ip password t there)
          ∙ ap (λ (s : String). contains (trim_space s) ".nip.io") ended
          ∙ patched

      -- What the steps after an installation leave, if there was no error before them.
      after-IsSettled :
          (url later : String) (x : Trace api × Option String) (done : Trace api)
          → trim_space url ≡ url
          → after_install api url later x ≡ (done, none)
          → IsSettled url done
      unfolding after_install
      after-IsSettled url later (d, some e) done plain result =
          absurd (false≢true (sym (ap (λ (y : Trace api × Option String). is_some y.1) result)))
      after-IsSettled url later (d, none) done plain result =
          let after = (after_install api url later (d, none)).0 in
          let kept : current after ≡ current (patch_url api url d) =
            ap trim_space (end_view api current_url keeps url later d template) in
          let good : IsSettled url after =
            subst (λ s. (s == effective_url url s) ≡ true) (sym kept) (settled url d plain) in
          subst (IsSettled url) (ap (λ (y : Trace api × Option String). y.0) result) good

      -- After deployRancher has succeeded, and where Rancher is installed then, running it again with the same
      -- domain and address succeeds, triggers no rollout and leaves the URL as it is: no command installs
      -- Rancher, sets the URL or patches the template of its pods. This is so if setting the URL and taking
      -- the volume rancher-data away work, if no other command than helm's changes either, and for a URL
      -- without spaces around it.
      pub deploy_rancher_again :
          (keeps_volume : (args : List String) (text : String) (c : Cluster)
            → data_volume (run (calls args text) c).0 ≡ data_volume c)
          (removes : (c : Cluster)
            → (trim_space (data_volume (run remove_volume c).0) == "rancher-data") ≡ false)
          (env later later' : Option String) (node_ip password password' : String) (t : Cluster)
          (done : Trace api)
          → trim_space (rancher_url (read_cloudflare_domain env) node_ip)
            ≡ rancher_url (read_cloudflare_domain env) node_ip
          → deploy_rancher api env later node_ip password t ≡ (done, none)
          → is_installed done.0 ≡ true
          → (rollouts (deploy_rancher api env later' node_ip password' done.0).0.1 ≡ [])
            × (current_url (deploy_rancher api env later' node_ip password' done.0).0.0
                ≡ current_url done.0)
            × ((deploy_rancher api env later' node_ip password' done.0).1 ≡ none)
      unfolding deploy_rancher
      deploy_rancher_again keeps_volume removes env later later' node_ip password password' t done
            plain result there =
          let url = rancher_url (read_cloudflare_domain env) node_ip in
          let ready = ensure_rancher_bootstrap_secret api password' (done.0, []) in
          let kept = bootstrap-Keeps api current_url keeps password' (done.0, []) in
          let held = bootstrap-Keeps api data_volume keeps_volume password' (done.0, []) in
          let installed : Trace api × Option String =
            if is_installed t
            then (ensure_rancher_bootstrap_secret api password (t, []), none)
            else install_rancher api (rancher_host (read_cloudflare_domain env) node_ip) url
                (ensure_rancher_bootstrap_secret api password (t, [])) in
          let domain = read_cloudflare_domain later in
          let first : IsSettled url done = after-IsSettled url domain installed done plain result in
          let bare = after-IsBare api keeps_volume removes url domain installed done result in
          let still : IsSettled url ready =
            subst (λ s. (s == effective_url url s) ≡ true) (sym (ap trim_space kept.0)) first in
          let same = patch_url-settled url ready still in
          let bare' =
            subst (IsBare api keeps_volume removes) (sym same)
              (same-IsBare api keeps_volume removes (done.0, []) ready held.0 bare) in
          let domain' = read_cloudflare_domain later' in
          let ended = end_view api current_url keeps url domain' ready template in
          let quiet = end_rollouts api keeps_volume removes url domain' ready bare' in
          let again = deploy-installed env later' node_ip password' done.0 there in
          (
            ap (λ (d : Trace api × Option String). rollouts d.0.1) again
                ∙ quiet
                ∙ ap (λ (d : Trace api). rollouts d.1) same
                ∙ kept.1,
            ap (λ (d : Trace api × Option String). current_url d.0.0) again
                ∙ ended
                ∙ ap (λ (d : Trace api). current_url d.0) same
                ∙ kept.0,
            ap (λ (d : Trace api × Option String). d.1) again ∙ after_none api url domain' ready,
          )
