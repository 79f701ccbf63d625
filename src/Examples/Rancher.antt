-- ===== src/Examples/Rancher.antt =====
-- A cluster that keeps the URL of Rancher and whether Rancher is installed.
use cluster_os.Prelude.{
  String, ◌≡◌, refl, ap, ◌∙◌, ◌==◌, Bool, true, false, Option, none, some, List, [], ◌∷◌, ◌++◌,
  elem,
}
use cluster_os.Prelude.Split.{trim_space}
use cluster_os.Prelude.Words.{contains}
use cluster_os.K3s.Rancher.{
  Act, Api, calls, sets_url, patches_template, helm_install, remove_volume, deploy_rancher, Trace,
}
use cluster_os.K3s.Domain.{read_cloudflare_domain, rancher_url}
use cluster_os.K3s.Rancher.Urls.{rollouts}
use cluster_os.K3s.Rancher.Settled.{own_domain_kept, deploy_rancher_again}

-- The URL, whether Rancher is installed, and its volume.
abbrev Site : Type 0
Site = String × Bool × String

abbrev runs : Act → Site → Site × Option String
runs (helm_install host url) (now, there, volume) = ((url, true, ""), none)
runs (sets_url url) (now, there, volume) = ((url, there, volume), none)
runs (patches_template json) (now, there, volume) = ((now, there, ""), none)
runs (calls args text) site = (site, none)

abbrev api : Api
api = record {
  Cluster = Site;
  run = runs;
  is_installed = λ site. site.1;
  has_helm = λ site. true;
  has_secret = λ site. site.1;
  has_ingress = λ site. true;
  current_url = λ site. site.0;
  data_volume = λ site. site.2;
}

abbrev env : Option String
env = some "# tunnel\n CLOUDFLARE_DOMAIN=example.org \n"

domain : read_cloudflare_domain env ≡ "example.org"
unfolding read_cloudflare_domain cluster_os.Prelude.Fields.split_at
    cluster_os.Prelude.Words.has_prefix trim_space
domain = refl

abbrev old_site : Site
old_site = ("https://10-0-0-7.nip.io:30444", true, "rancher-data")

moved :
    rollouts (deploy_rancher api env env "10.0.0.8" "secret" old_site).0.1
    ≡ sets_url "https://rancher.example.org" ∷ remove_volume ∷ []
unfolding deploy_rancher trim_space cluster_os.Prelude.Fields.split_at
    cluster_os.Prelude.Words.has_prefix contains cluster_os.Prelude.Errors.after_text
moved = refl

plain :
    trim_space (rancher_url (read_cloudflare_domain env) "10.0.0.8")
    ≡ rancher_url (read_cloudflare_domain env) "10.0.0.8"
unfolding rancher_url read_cloudflare_domain trim_space cluster_os.Prelude.Fields.split_at
    cluster_os.Prelude.Words.has_prefix cluster_os.Prelude.Errors.after_text
plain = refl

first : Trace api
unfolding deploy_rancher
first = (deploy_rancher api env env "10.0.0.8" "secret" old_site).0

deployed : deploy_rancher api env env "10.0.0.8" "secret" old_site ≡ (first, none)
unfolding first
deployed = refl

still_there : first.0.1 ≡ true
unfolding first trim_space cluster_os.Prelude.Fields.split_at cluster_os.Prelude.Words.has_prefix
    contains cluster_os.Prelude.Errors.after_text
still_there = refl

bare : (trim_space "" == "rancher-data") ≡ false
unfolding trim_space
bare = refl

deploy_rancher_again_example :
    (rollouts (deploy_rancher api env none "10.0.0.8" "other" first.0).0.1 ≡ [])
    × ((deploy_rancher api env none "10.0.0.8" "other" first.0).0.0.0 ≡ first.0.0)
    × ((deploy_rancher api env none "10.0.0.8" "other" first.0).1 ≡ none)
unfolding remove_volume
deploy_rancher_again_example =
    deploy_rancher_again api (λ args text t. refl) (λ json t. refl) (λ url t. refl)
      (λ args text t. refl) (λ t. bare) env env none "10.0.0.8" "secret" "other" old_site first
      plain deployed still_there

nip_plain :
    trim_space (rancher_url (read_cloudflare_domain none) "10.0.0.8")
    ≡ rancher_url (read_cloudflare_domain none) "10.0.0.8"
unfolding rancher_url read_cloudflare_domain trim_space cluster_os.Prelude.Errors.after_text
    cluster_os.Prelude.Words.replace_all cluster_os.Prelude.Words.has_prefix
nip_plain = refl

not_nip : contains "https://rancher.example.org" ".nip.io" ≡ false
unfolding contains
not_nip = refl

abbrev own_site : Site
own_site = ("https://rancher.example.org", true, "rancher-data")

trimmed : trim_space "https://rancher.example.org" ≡ "https://rancher.example.org"
unfolding trim_space
trimmed = refl

own_domain_kept_example :
    contains
      (trim_space (deploy_rancher api none none "10.0.0.8" "secret" own_site).0.0.0)
      ".nip.io"
    ≡ false
own_domain_kept_example =
    own_domain_kept api (λ args text t. refl) (λ json t. refl) (λ url t. refl) none none "10.0.0.8"
      "secret" own_site nip_plain refl (ap (λ s. s == "") trimmed)
      (ap (λ s. contains s ".nip.io") trimmed ∙ not_nip)
