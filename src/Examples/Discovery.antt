-- ===== src/Examples/Discovery.antt =====
-- Member events of node/internal/discovery/serf.go for a node with the token of its id.
use cluster_os.Prelude.{ℕ, String, ◌≢◌, refl, true, none, List, [], ◌∷◌, false≢true, eq_iff, arith}
use cluster_os.Prelude.Maps.{Map, lookup}
use cluster_os.State.{new_cluster_state}
use cluster_os.Discovery.Member.{Member, alive}
use cluster_os.Discovery.Tags.{SetTags, Takes}
use cluster_os.Discovery.Events.{join, update, Discovery, Setup, handle_member_event}
use cluster_os.Discovery.Events.Effects.{AllVouched, handle_member_event-AllVouched}
use cluster_os.Examples.Auth.{codec, cluster_auth}

abbrev setup : Setup
setup = record { codec = codec; cluster_auth = cluster_auth; local_id = "n0"; parse_ip = λ s. none }

abbrev member : String → Member
member token = record {
  name = "b";
  addr = "10.0.0.2";
  port = 7946;
  status = alive;
  tags = ("node_id", "n1") ∷ ("auth", token) ∷ [];
}

abbrev empty : Discovery
empty = record { state = new_cluster_state; notified = 0 }

abbrev joined : List (Member × ℕ × ℕ)
joined = (member "10110110", 5, 5) ∷ (member "forged", 6, 6) ∷ []

no_nodes : AllVouched setup new_cluster_state
unfolding lookup new_cluster_state
no_nodes id n h = absurd (ground arith)

join_is_not_update : join ≢ update
join_is_not_update e = ground arith

handle_member_event-AllVouched_example :
    AllVouched setup (handle_member_event join setup joined empty).state
handle_member_event-AllVouched_example =
    handle_member_event-AllVouched join setup joined empty join_is_not_update no_nodes

abbrev id_n1 : String
id_n1 = "n1"

named : id_n1 ≢ ""
named e = false≢true ((eq_iff id_n1 "").1 e)

abbrev set_tags : SetTags
set_tags existing tags = (tags, true)

takes : Takes set_tags
takes = record { taken = λ existing tags h. refl }

abbrev old_tags : Map String
old_tags = ("ver", "v1") ∷ ("phase", "joining") ∷ []
