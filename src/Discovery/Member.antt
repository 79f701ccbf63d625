-- ===== src/Discovery/Member.antt =====
-- serf.Member as node/internal/discovery/serf.go reads it, and the queries over the member list. The
-- list itself is Serf's, and is an argument of every function that reads it.
use cluster_os.Prelude.{
  ℕ, String, Bool, true, false, Option, none, some, List, [], ◌∷◌, ◌==◌, if◌then◌else◌, length,
  filter,
}
use cluster_os.Prelude.Maps.{Map, lookup}

pub data MemberStatus : Type 0 where
  none_status alive leaving left failed : MemberStatus

abbrev pub is_alive : MemberStatus → Bool
is_alive alive = true
is_alive _ = false

-- `addr` is the text of the member's net.IP.
pub record Member : Type 0 where
  pub name : String
  pub addr : String
  pub port : ℕ
  pub status : MemberStatus
  pub tags : Map String

unfoldable pub or_empty : Option String → String
or_empty none = ""
or_empty (some s) = s

-- m[key], which is "" for a missing key
unfoldable pub tag : String → Map String → String
unfolding or_empty
tag key tags = or_empty (lookup key tags)

unfoldable pub get_alive_members : List Member → List Member
get_alive_members = filter (λ m. is_alive m.status)

unfoldable pub get_cluster_size : List Member → ℕ
unfolding get_alive_members
get_cluster_size members = length (get_alive_members members)

unfoldable pub get_member_by_node_id : String → List Member → Option Member
unfolding tag
get_member_by_node_id node_id [] = none
get_member_by_node_id node_id (m ∷ ms) =
    if tag "node_id" m.tags == node_id then some m else get_member_by_node_id node_id ms

unfoldable pub is_bootstrap : Member → List Member → Bool
is_bootstrap local [] = false
is_bootstrap local (m ∷ []) = m.name == local.name
is_bootstrap local (m ∷ n ∷ ms) = false
