-- ===== src/K3s/Domain.antt =====
-- readCloudflareDomain of node/internal/services/kubernetes/k3s/server.go, and the host and the URL that
-- deployRancher chooses by the domain.
use cluster_os.Prelude.{String, ◌&&◌, not, Option, none, some, List, [], ◌∷◌, ◌==◌, if◌then◌else◌}
use cluster_os.Prelude.Errors.{after_text}
use cluster_os.Prelude.Split.{trim_space}
use cluster_os.Prelude.Fields.{split_at}
use cluster_os.Prelude.Words.{has_prefix, contains, replace_all}

text_after : String → String → String
text_after s String.[] = s
text_after String.[] p = ""
text_after (String.◌∷◌ c s) (String.◌∷◌ d p) = text_after s p

domain_in : List String → String
unfolding text_after
domain_in [] = ""
domain_in (line ∷ lines) =
    let rest = domain_in lines in
    if has_prefix (trim_space line) "CLOUDFLARE_DOMAIN="
    then trim_space (text_after (trim_space line) "CLOUDFLARE_DOMAIN=")
    else rest

-- The file is read, or it is not.
unfoldable pub read_cloudflare_domain : Option String → String
unfolding domain_in
read_cloudflare_domain none = ""
read_cloudflare_domain (some text) = domain_in (split_at 10 text)

-- rancherHost
unfoldable pub rancher_host : String → String → String
rancher_host domain node_ip =
    if not (domain == "")
    then after_text "rancher." domain
    else if node_ip == ""
    then "rancher.cluster.local"
    else after_text (replace_all "." "-" node_ip) ".nip.io"

-- rancherURL
unfoldable pub rancher_url : String → String → String
unfolding rancher_host
rancher_url domain node_ip =
    let url = after_text "https://" (rancher_host domain node_ip) in
    if not (domain == "") then url else after_text url ":30444"

-- effectiveURL, from rancherURL and currentURL
unfoldable pub effective_url : String → String → String
effective_url url current =
    if contains url ".nip.io" && not (current == "") && not (contains current ".nip.io")
    then current
    else url
