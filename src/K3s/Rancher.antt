-- ===== src/K3s/Rancher.antt =====
-- deployRancher, ensureRancherBootstrapSecret and ensureRancherStateless of
-- node/internal/services/kubernetes/k3s/server.go. What they log is left out, the
-- kubeconfig that some commands name, and patchRancherServerURLSetting, which runs beside the rest.
use cluster_os.Prelude.{
  String, Bool, true, false, ◌&&◌, not, Option, none, some, List, [], ◌∷◌, ◌++◌, ◌==◌,
  if◌then◌else◌,
}
use cluster_os.Prelude.Errors.{after_text, caused}
use cluster_os.Prelude.Split.{trim_space}
use cluster_os.Prelude.Fields.{split_at}
use cluster_os.Prelude.Words.{has_prefix, contains, replace_all}
use cluster_os.K3s.Domain.{read_cloudflare_domain, rancher_host, rancher_url, effective_url}
pub mod Urls
pub mod Stateless
pub mod Settled

-- A command that installs Rancher for a host and a URL, one that sets the URL of the deployment, one that
-- patches the template of its pods otherwise, and any other with its arguments and input.
pub data Act : Type 0 where
  helm_install : String → String → Act
  sets_url patches_template : String → Act
  calls : List String → String → Act

-- kubectl, helm and the disk: the error of a command with its output, and what is read.
pub record Api : Type 1 where
  pub Cluster : Type 0
  pub run : Act → Cluster → Cluster × Option String
  pub is_installed : Cluster → Bool
  pub has_helm : Cluster → Bool
  pub has_secret : Cluster → Bool
  pub has_ingress : Cluster → Bool
  pub current_url : Cluster → String
  pub data_volume : Cluster → String

kubectl : List String → Act
kubectl args = calls ("k3s" ∷ "kubectl" ∷ args) ""

applies : String → Act
applies yaml = calls ("k3s" ∷ "kubectl" ∷ "apply" ∷ "-f" ∷ "-" ∷ []) yaml

helm_script : String
helm_script =
    "curl -fsSL https://raw.githubusercontent.com/helm/helm/main/scripts/get-helm-3 | bash"

secret_yaml : String → String
secret_yaml password =
    after_text
      "apiVersion: v1\nkind: Secret\nmetadata:\n  name: bootstrap-secret\n  namespace: cattle-system\ntype: Opaque\nstringData:\n  bootstrapPassword: \""
      (after_text password "\"\n")

node_port_yaml : String
node_port_yaml =
    "apiVersion: v1\nkind: Service\nmetadata:\n  name: rancher-nodeport\n  namespace: cattle-system\nspec:\n  type: NodePort\n  selector:\n    app: rancher\n  sessionAffinity: ClientIP\n  sessionAffinityConfig:\n    clientIP:\n      timeoutSeconds: 10800\n  ports:\n  - name: https\n    port: 443\n    targetPort: 443\n    nodePort: 30444\n"

path_yaml : String
path_yaml =
    "apiVersion: networking.k8s.io/v1\nkind: Ingress\nmetadata:\n  name: rancher-path-ingress\n  namespace: ingress-nginx\nspec:\n  ingressClassName: nginx\n  rules:\n  - http:\n      paths:\n      - path: /rancher\n        pathType: Prefix\n        backend:\n          service:\n            name: clusteros-landing\n            port:\n              number: 80\n"

namespace_yaml : String
namespace_yaml = "apiVersion: v1\nkind: Namespace\nmetadata:\n  name: cattle-system\n"

unfoldable pub remove_volume : Act
remove_volume =
    patches_template
      "{\"spec\":{\"template\":{\"spec\":{\"volumes\":[{\"$patch\":\"delete\",\"name\":\"rancher-data\"}],\"containers\":[{\"name\":\"rancher\",\"volumeMounts\":[{\"$patch\":\"delete\",\"mountPath\":\"/var/lib/rancher\"}]}]}}}}"

pub three_replicas : Act
unfolding kubectl
three_replicas = kubectl (
    "patch" ∷ "deployment" ∷ "rancher" ∷ "-n" ∷ "cattle-system" ∷ "--type=merge" ∷ "-p"
    ∷ "{\"spec\":{\"replicas\":3}}" ∷ [])

port_patch : String
port_patch =
    "-p=[{\"op\":\"replace\",\"path\":\"/spec/rules/0/http/paths/0/backend/service/port/number\",\"value\":443}]"

-- The ingress of the chart is led to port 443.
ingress_acts : List Act
unfolding kubectl port_patch
ingress_acts =
    kubectl
      ("-n" ∷ "cattle-system" ∷ "patch" ∷ "ingress" ∷ "rancher" ∷ "--type=json" ∷ port_patch ∷ [])
    ∷ kubectl (
        "-n" ∷ "cattle-system" ∷ "annotate" ∷ "ingress" ∷ "rancher"
        ∷ "nginx.ingress.kubernetes.io/ssl-redirect=false" ∷ "--overwrite" ∷ [])
    ∷ []

-- The port of every node, and the path of the landing page.
expose_acts : List Act
unfolding kubectl applies node_port_yaml path_yaml
expose_acts =
    applies node_port_yaml
    ∷ kubectl (
        "-n" ∷ "cattle-system" ∷ "delete" ∷ "ingress" ∷ "rancher-path-redirect"
        ∷ "--ignore-not-found=true" ∷ [])
    ∷ applies path_yaml
    ∷ []

helm_repos : List Act
helm_repos =
    calls
      ("helm" ∷ "repo" ∷ "add" ∷ "rancher-stable"
        ∷ "https://releases.rancher.com/server-charts/stable" ∷ [])
      ""
    ∷ calls ("helm" ∷ "repo" ∷ "update" ∷ []) ""
    ∷ []

module _ (api : Api) where
  open api use {
    Cluster, run, is_installed, has_helm, has_secret, has_ingress, current_url, data_volume,
  }

  -- The cluster and the commands so far.
  abbrev pub Trace : Type 0
  Trace = Cluster × List Act

  -- A command whose error is only logged.
  unfoldable pub doing : Act → Trace → Trace
  doing act (t, log) = ((run act t).0, log ++ (act ∷ []))

  unfoldable pub doing_all : List Act → Trace → Trace
  unfolding doing
  doing_all [] done = done
  doing_all (act ∷ acts) done = doing_all acts (doing act done)

  unfoldable pub ensure_rancher_bootstrap_secret : String → Trace → Trace
  unfolding doing applies namespace_yaml secret_yaml
  ensure_rancher_bootstrap_secret password done =
      let named = doing (applies namespace_yaml) done in
      if has_secret named.0 then named else doing (applies (secret_yaml password)) named

  -- The volume is taken away where the deployment has it.
  without_volume : Trace → Trace
  unfolding doing remove_volume
  without_volume done =
      if trim_space (data_volume done.0) == "rancher-data" then doing remove_volume done else done

  unfoldable pub ensure_rancher_stateless : Trace → Trace
  unfolding doing without_volume three_replicas
  ensure_rancher_stateless done = doing three_replicas (without_volume done)

  -- After the command that installs Rancher, or before it where helm fails.
  installing : String → Trace → Option String → Trace × Option String
  installing what done none = (done, none)
  installing what done (some e) = (done, some (caused what e))

  helm_installed : String → String → Trace → Trace × Option String
  unfolding doing_all installing helm_repos
  helm_installed host url done =
      let ready = doing_all helm_repos done in
      installing "helm install rancher" (doing (helm_install host url) ready)
        (run (helm_install host url) ready.0).1

  -- Where the script that installs helm fails, nothing more is done.
  with_helm : String → String → Trace × Option String → Trace × Option String
  unfolding helm_installed
  with_helm host url (done, some e) = (done, some e)
  with_helm host url (done, none) = helm_installed host url done

  unfoldable pub install_rancher : String → String → Trace → Trace × Option String
  unfolding with_helm helm_script
  install_rancher host url done =
      let script = calls ("bash" ∷ "-c" ∷ helm_script ∷ []) "" in
      with_helm host url (
        if has_helm done.0
        then (done, none)
        else installing "install helm" (doing script done) (run script done.0).1)

  -- The URL of the deployment is set only where it differs.
  unfoldable pub patch_url : String → Trace → Trace
  unfolding doing effective_url
  patch_url url done =
      let current = trim_space (current_url done.0) in
      let effective = effective_url url current in
      if current == effective then done else doing (sets_url effective) done

  -- With a domain, the ingress of the chart is led to port 443.
  unfoldable pub reconcile_ingress : String → Trace → Trace
  unfolding doing_all ingress_acts
  reconcile_ingress domain done =
      if not (domain == "") && has_ingress done.0 then doing_all ingress_acts done else done

  unfoldable pub expose_rancher : Trace → Trace
  unfolding doing_all expose_acts
  expose_rancher done = doing_all expose_acts done

  -- After the installation. The second reading of the domain is one of its own.
  unfoldable pub after_install : String → String → Trace × Option String → Trace × Option String
  unfolding ensure_rancher_stateless expose_rancher reconcile_ingress patch_url
  after_install url later (done, some e) = (done, some e)
  after_install url later (done, none) = (
    ensure_rancher_stateless (expose_rancher (reconcile_ingress later (patch_url url done))),
    none,
  )

  unfoldable pub deploy_rancher :
      Option String → Option String → String → String → Cluster → Trace × Option String
  unfolding after_install install_rancher ensure_rancher_bootstrap_secret read_cloudflare_domain
      rancher_url rancher_host
  deploy_rancher env later node_ip password t =
      let domain = read_cloudflare_domain env in
      let url = rancher_url domain node_ip in
      let ready = ensure_rancher_bootstrap_secret password (t, []) in
      after_install url (read_cloudflare_domain later) (
        if is_installed t
        then (ready, none)
        else install_rancher (rancher_host domain node_ip) url ready)
