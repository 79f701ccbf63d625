-- ===== src/Daemon/Node/LeaderTags.antt =====
-- waitForLeaderTag and readLeaderClusterTags of node/internal/daemon/daemon.go.
use cluster_os.Prelude.{
  String, Bool, false, ◌&&◌, ◌||◌, not, Option, none, some, List, [], ◌∷◌, ◌==◌, if◌then◌else◌,
}
use cluster_os.Auth.{Bytes}
use cluster_os.Discovery.Member.{Member}
use cluster_os.Daemon.Node.{Host, get_leader_tag}

-- One round of a wait: whether the daemon is being stopped, and Serf's members.
pub record Poll : Type 0 where
  pub cancelled : Bool
  pub members : List Member

-- A tag that is there, is not empty, and is the wanted value if one is wanted.
unfoldable pub accepts : String → Option String → Bool
accepts want none = false
accepts want (some value) = not (value == "") && (want == "" || value == want)

unfoldable pub or_text : Option String → String
or_text none = ""
or_text (some s) = s

-- waitForLeaderTag, over the rounds that fit before its deadline; `none` is an error. Synchronising
-- with the leader only changes what Serf shows in later rounds.
unfoldable pub wait_for_leader_tag : String → String → String → List Poll → Option String
unfolding accepts or_text
wait_for_leader_tag key want leader_name [] = none
wait_for_leader_tag key want leader_name (poll ∷ polls) =
    let rest = wait_for_leader_tag key want leader_name polls in
    let seen = get_leader_tag key leader_name poll.members in
    if poll.cancelled then none else if accepts want seen then some (or_text seen) else rest

pub record LeaderClusterTags : Type 0 where
  pub server_url : String
  pub token : String
  pub munge_key : Bytes

-- The rounds of the three waits.
pub record TagPolls : Type 0 where
  pub for_url : List Poll
  pub for_token : List Poll
  pub for_key : List Poll

-- The munge key: from the tag, or else from the file that a user event may have written.
unfoldable pub leader_munge_key : Host → Option String → Option Bytes → Option Bytes
leader_munge_key host none munge_file = munge_file
leader_munge_key host (some text) munge_file = host.std_decode text

-- readLeaderClusterTags; `none` is an error
unfoldable pub read_leader_cluster_tags :
    Host → String → TagPolls → Option Bytes → Option LeaderClusterTags
unfolding leader_munge_key
read_leader_cluster_tags host leader_name polls munge_file =
    elim (wait_for_leader_tag "k3s-server" "" leader_name polls.for_url) [
      | none ↦ none
      | some url ↦ elim (wait_for_leader_tag "k3s-token" "" leader_name polls.for_token) [
        | none ↦ none
        | some tok ↦
            elim (leader_munge_key host
              (wait_for_leader_tag "munge-key" "" leader_name polls.for_key) munge_file) [
                | none ↦ none
                | some key ↦ some (record { server_url = url; token = tok; munge_key = key })
              ]
      ]
    ]
