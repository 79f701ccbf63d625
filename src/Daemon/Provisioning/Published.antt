-- ===== src/Daemon/Provisioning/Published.antt =====
-- What a leader publishes is what a node that joins reads: publishClusterReady and
-- readLeaderClusterTags of node/internal/daemon/daemon.go.
use cluster_os.Prelude.{
  elem, String, ◌≡◌, ◌≢◌, refl, ◌∙◌, true, false, Option, some, List, [], ◌∷◌, ◌==◌, eq_iff,
  Bool-cases, inl, inr,
}
use cluster_os.Prelude.Maps.{Map, lookup}
use cluster_os.Auth.{Bytes}
use cluster_os.Discovery.Member.{Member}
use cluster_os.Discovery.Tags.{Takes, update_tags, update_tags_exact}
use cluster_os.Daemon.Node.{Daemon, Host, drop_tags, current_leader, tags_of, get_leader_tag}
use cluster_os.Daemon.Node.LeaderTags.{
  Poll, wait_for_leader_tag, TagPolls, leader_munge_key, read_leader_cluster_tags,
}
use cluster_os.Daemon.Provisioning.{cluster_tags, try_publish, publish_cluster_ready}

-- A wait whose first round, which is not cancelled, shows the leader with these tags.
abbrev pub Sees : String → Map String → List Poll → Type 0
Sees leader tags [] = ⊥
Sees leader tags (poll ∷ polls) =
    (poll.cancelled ≡ false)
    × (tags_of (current_leader leader poll.members) poll.members ≡ some tags)

get_leader_tag-Sees :
    (key leader : String) (tags : Map String) (members : List Member)
    → tags_of (current_leader leader members) members ≡ some tags
    → get_leader_tag key leader members ≡ lookup key tags
unfolding get_leader_tag
get_leader_tag-Sees key leader tags members h = rw (h, get_leader_tag) refl

wait-Sees :
    (key value leader : String) (tags : Map String) (polls : List Poll)
    → Sees leader tags polls
    → lookup key tags ≡ some value
    → value ≢ ""
    → wait_for_leader_tag key "" leader polls ≡ some value
unfolding wait_for_leader_tag
wait-Sees key value leader tags [] sees found full = absurd sees
wait-Sees key value leader tags (poll ∷ polls) sees found full =
    let seen = get_leader_tag-Sees key leader tags poll.members sees.1 ∙ found in
    elim (Bool-cases (value == "")) [
      | inl e ↦ absurd (full ((eq_iff value "").0 e))
      | inr e ↦ rw (sees.0, seen, e) refl
    ]

-- Where Serf takes the tags, they are the published ones under their keys.
published_tags :
    (host : Host) (d : Daemon) (url tok cp_servers : String) (key : Bytes) (name value : String)
    → Takes host.set_tags
    → (update_tags host.set_tags
        (cluster_tags host url tok cp_servers key)
        (drop_tags host ("munge-key-hash" ∷ []) d).tags).1
      ≡ true
    → lookup name (cluster_tags host url tok cp_servers key) ≡ some value
    → lookup name (publish_cluster_ready host url tok cp_servers key d).tags ≡ some value
unfolding publish_cluster_ready try_publish cluster_tags elem lookup
published_tags host d url tok cp_servers key name value takes fine found =
    update_tags_exact host.set_tags (cluster_tags host url tok cp_servers key)
      (drop_tags host ("munge-key-hash" ∷ []) d).tags name takes
      (refl, (refl, (refl, (refl, (refl, tt))))) fine
    ∙ rw found refl

-- A node that sees the tags that Serf took from the leader reads exactly the leader's server URL, token
-- and munge key, if none of the three texts is empty and the node decodes what the leader encoded.
pub read-publish :
    (host joiner : Host) (d : Daemon) (leader url tok cp_servers : String) (key : Bytes)
    (polls : TagPolls) (munge_file : Option Bytes)
    → Takes host.set_tags
    → (update_tags host.set_tags
        (cluster_tags host url tok cp_servers key)
        (drop_tags host ("munge-key-hash" ∷ []) d).tags).1
      ≡ true
    → url ≢ ""
    → tok ≢ ""
    → host.std_encode key ≢ ""
    → joiner.std_decode (host.std_encode key) ≡ some key
    → Sees leader (publish_cluster_ready host url tok cp_servers key d).tags polls.for_url
    → Sees leader (publish_cluster_ready host url tok cp_servers key d).tags polls.for_token
    → Sees leader (publish_cluster_ready host url tok cp_servers key d).tags polls.for_key
    → read_leader_cluster_tags joiner leader polls munge_file
      ≡ some (record { server_url = url; token = tok; munge_key = key })
unfolding read_leader_cluster_tags leader_munge_key cluster_tags lookup
read-publish host joiner d leader url tok cp_servers key polls munge_file takes fine u t k decodes
      su st sk =
    let tags = (publish_cluster_ready host url tok cp_servers key d).tags in
    let found = published_tags host d url tok cp_servers key in
    let url_read =
      wait-Sees "k3s-server" url leader tags polls.for_url su
        (found "k3s-server" url takes fine refl) u in
    let token_read =
      wait-Sees "k3s-token" tok leader tags polls.for_token st
        (found "k3s-token" tok takes fine refl) t in
    let key_read =
      wait-Sees "munge-key" (host.std_encode key) leader tags polls.for_key sk
        (found "munge-key" (host.std_encode key) takes fine refl) k in
    rw (url_read, token_read, key_read, decodes, read_leader_cluster_tags) refl
