-- ===== src/Daemon/Node.antt =====
-- The state of a daemon (node/internal/daemon/daemon.go) and the helpers that its phases share. A call
-- of the world (Serf, a process that is started, the disk, the network) takes its answer as an argument.
pub mod LeaderTags
use cluster_os.Prelude.{
  ℕ, String, Bool, true, false, Option, none, some, List, [], ◌∷◌, ◌==◌, if◌then◌else◌,
}
use cluster_os.Prelude.Maps.{Map, insert, delete, lookup}
use cluster_os.Auth.{Bytes}
use cluster_os.State.{ClusterState, remove_leader}
use cluster_os.Discovery.Member.{Member}
use cluster_os.Discovery.Tags.{SetTags, update_tags, delete_tags}
use cluster_os.Daemon.Election.{compute_leader}
use cluster_os.Daemon.ControlPlane.{EtcdDisk}
use cluster_os.Daemon.Workers.{WorkerInfo}

pub data Phase : Type 0 where
  discovering electing provisioning joining_cp joining ready : Phase

unfoldable pub phase_text : Phase → String
phase_text discovering = "discovering"
phase_text electing = "electing"
phase_text provisioning = "provisioning"
phase_text joining_cp = "joining-cp"
phase_text joining = "joining"
phase_text ready = "ready"

-- The roles that the phases start, with what they are constructed from.
pub data Role : Type 0 where
  k3s_server : String → Role
  k3s_server_joining : String → String → String → Role
  k3s_agent : String → String → String → Role
  slurm_controller : String → Bytes → List WorkerInfo → Role
  slurm_worker : String → Bytes → String → Role
  slurm_worker_no_config : String → Bytes → String → Role

-- The fields of Daemon that the phases write, with what they write elsewhere: the local Serf tags, the
-- roles of the role manager, the munge key file, the etcd data, and the tag sets that a background retry
-- still has to publish.
pub record Daemon : Type 0 where
  pub phase : Phase
  pub is_leader : Bool
  pub is_cp_server : Bool
  pub leader_name : String
  pub cp_servers : List String
  pub slurm_ctrl : Bool
  pub k3s_server_url : String
  pub cluster_state : ClusterState
  pub roles : Map Role
  pub tags : Map String
  pub munge_file : Option Bytes
  pub etcd : EtcdDisk
  pub retrying : List (Map String)

-- What stays the same while a daemon runs: its identity, version and Serf name, how Serf takes tags, and
-- base64.
pub record Host : Type 0 where
  pub node_id : String
  pub node_name : String
  pub version : String
  pub set_tags : SetTags
  pub std_encode : Bytes → String
  pub std_decode : String → Option Bytes

-- Registering and unregistering go through the role manager.
unfoldable pub register_role : String → Role → Daemon → Daemon
register_role name role d = record d { roles = insert name role d.roles }

unfoldable pub unregister_role : String → Daemon → Daemon
unregister_role name d = record d { roles = delete name d.roles }

-- publishTag: an error is only logged
unfoldable pub publish_tag : Host → String → String → Daemon → Daemon
unfolding update_tags
publish_tag host key value d = record d {
  tags = (update_tags host.set_tags ((key, value) ∷ []) d.tags).0;
}

-- discovery.DeleteTags, where the caller ignores the error
unfoldable pub drop_tags : Host → List String → Daemon → Daemon
unfolding delete_tags
drop_tags host ks d = record d { tags = (delete_tags host.set_tags ks d.tags).0 }

unfoldable pub set_phase : Host → Phase → Daemon → Daemon
unfolding publish_tag phase_text
set_phase host p d = publish_tag host "phase" (phase_text p) (record d { phase = p })

-- stopSlurmController
unfoldable pub stop_slurm_controller : Daemon → Daemon
unfolding unregister_role remove_leader
stop_slurm_controller d =
    if d.slurm_ctrl
    then unregister_role "slurm-controller" (record d {
      slurm_ctrl = false;
      cluster_state = remove_leader "slurm-controller" d.cluster_state;
    })
    else d

-- The tags of the first member of a name.
unfoldable pub tags_of : String → List Member → Option (Map String)
tags_of name [] = none
tags_of name (m ∷ ms) = if m.name == name then some m.tags else tags_of name ms

-- The stored leader, or else the one that ComputeLeader names.
unfoldable pub current_leader : String → List Member → String
current_leader leader_name members =
    if leader_name == "" then compute_leader members else leader_name

-- getLeaderTag
unfoldable pub get_leader_tag : String → String → List Member → Option String
unfolding tags_of current_leader
get_leader_tag key leader_name members =
    elim (tags_of (current_leader leader_name members) members) [
      | none ↦ none
      | some tags ↦ lookup key tags
    ]
