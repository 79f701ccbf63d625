-- ===== src/Discovery/Events.antt =====
-- Member events of node/internal/discovery/serf.go and what they do to the cluster state.
pub mod Effects
use cluster_os.Prelude.{
  ℕ, suc, String, Bool, true, false, Option, none, some, List, [], ◌∷◌, ◌==◌, if◌then◌else◌,
}
use cluster_os.Prelude.Int.{atoi}
use cluster_os.Prelude.Maps.{Map}
use cluster_os.Auth.{Codec, ClusterAuth, Result, ok, err, verify_compact_join_token}
use cluster_os.State.{Ip, Node, ClusterState, NodeStatus, add_node, remove_node, update_node_status}
use cluster_os.Discovery.Member.{Member, tag}

pub data EventType : Type 0 where
  join leave failed update reap : EventType

-- What handling an event changes: the cluster state, and how often the membership handlers are started.
pub record Discovery : Type 0 where
  pub state : ClusterState
  pub notified : ℕ

-- `parse_ip` is net.ParseIP.
unfoldable pub member_to_node : (String → Option Ip) → Member → Node
unfolding tag
member_to_node parse_ip member = record {
  id = tag "node_id" member.tags;
  name = member.name;
  roles = [];
  capabilities = record {
    cpu = (atoi (tag "cpu" member.tags)).0;
    ram = "";
    gpu = false;
    arch = tag "arch" member.tags;
  };
  status = NodeStatus.unset;
  address = member.addr;
  tailscale_ip = parse_ip (tag "tsip" member.tags);
  tailscale_name = "";
  tags = member.tags;
  last_seen = 0;
  joined_at = 0;
}

unfoldable pub notify_membership_change : Discovery → Discovery
notify_membership_change sd = record sd { notified = suc sd.notified }

-- A discovery layer is its key, its own node's id and the packages that it uses.
pub record Setup : Type 0 where
  pub codec : Codec
  pub cluster_auth : ClusterAuth
  pub local_id : String
  pub parse_ip : String → Option Ip

-- memberToNode, marked alive, is added; the two readings of the clock are `seen` and `now`.
admit : Setup → ℕ → ℕ → Member → Discovery → Discovery
unfolding member_to_node notify_membership_change
admit setup seen now member sd =
    let node = record (member_to_node setup.parse_ip member) { status = NodeStatus.alive } in
    notify_membership_change (record sd { state = add_node node seen now sd.state })

admit_if : Result (Unit {0}) → Setup → ℕ → ℕ → Member → Discovery → Discovery
unfolding admit
admit_if (err e) setup seen now member sd = sd
admit_if (ok _) setup seen now member sd = admit setup seen now member sd

unfoldable pub handle_member_join : Setup → ℕ → ℕ → Member → Discovery → Discovery
unfolding tag admit_if
handle_member_join setup seen now member sd =
    let node_id = tag "node_id" member.tags in
    let auth_token = tag "auth" member.tags in
    if node_id == setup.local_id
    then sd
    else if auth_token == ""
    then sd
    else admit_if (verify_compact_join_token setup.codec setup.cluster_auth node_id auth_token)
        setup seen now member sd

unfoldable pub handle_member_update : Setup → ℕ → ℕ → Member → Discovery → Discovery
unfolding admit
handle_member_update setup seen now member sd = admit setup seen now member sd

-- the switch of handleMemberEvent for one member
unfoldable pub dispatch : EventType → Setup → ℕ → ℕ → String → Member → Discovery → Discovery
unfolding handle_member_join handle_member_update notify_membership_change
dispatch join setup seen now node_id member sd = handle_member_join setup seen now member sd
dispatch update setup seen now node_id member sd = handle_member_update setup seen now member sd
dispatch leave setup seen now node_id member sd = record sd {
  state = update_node_status node_id NodeStatus.left seen sd.state;
}
dispatch failed setup seen now node_id member sd = record sd {
  state = update_node_status node_id NodeStatus.failed seen sd.state;
}
dispatch reap setup seen now node_id member sd =
    notify_membership_change (record sd { state = remove_node node_id sd.state })

unfoldable pub handle_member : EventType → Setup → ℕ → ℕ → Member → Discovery → Discovery
unfolding dispatch tag
handle_member event setup seen now member sd =
    let node_id = tag "node_id" member.tags in
    if node_id == "" then sd else dispatch event setup seen now node_id member sd

-- handleMemberEvent, with the clock readings for each member
unfoldable pub handle_member_event :
    EventType → Setup → List (Member × ℕ × ℕ) → Discovery → Discovery
unfolding handle_member
handle_member_event event setup [] sd = sd
handle_member_event event setup ((member, seen, now) ∷ members) sd =
    handle_member_event event setup members (handle_member event setup seen now member sd)
