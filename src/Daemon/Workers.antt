-- ===== src/Daemon/Workers.antt =====
-- buildWorkerList and watchWorkersAndReconfigureSLURM of node/internal/daemon/daemon.go.
pub mod Watch
use Prim.Native.String.{◌++◌}
use cluster_os.Prelude.{
  ℕ, zero, suc, ◌+◌, String, Bool, true, false, ◌&&◌, ◌||◌, not, Option, none, some, List, [], ◌∷◌,
  ◌==◌, if◌then◌else◌, sort_by,
}
use cluster_os.Prelude.Int.{ℤ, pos, ltb_ℤ, atoi}
use cluster_os.Prelude.Maps.{lookup}
use cluster_os.Discovery.Member.{Member, tag, get_alive_members}
use cluster_os.Daemon.ControlPlane.{member_ip}

-- controller.WorkerInfo
pub record WorkerInfo : Type 0 where
  pub name : String
  pub addr : String
  pub cpus : ℤ
  pub mem_mb : ℤ
  pub gpus : ℤ
  pub tmp_disk : ℕ

-- The usable space of the n-th disk in MB, if the kernel tells it.
abbrev pub Disks : Type 0
Disks = ℕ → Option ℕ

-- extraDiskTotalMB: a disk that cannot be read counts nothing
unfoldable pub extra_disk_total_mb : Disks → ℕ → ℕ
extra_disk_total_mb disks zero = 0
extra_disk_total_mb disks (suc n) =
    let before = extra_disk_total_mb disks n in
    elim (disks n) [ none ↦ before | some mb ↦ before + mb ]

disk_total : Disks → ℤ × Bool → ℕ
unfolding extra_disk_total_mb
disk_total disks (pos n, true) = extra_disk_total_mb disks n
disk_total disks _ = 0

-- The space of the disks that the ndisks tag counts, where it is a positive number.
tmp_disk_of : Disks → Option String → ℕ
unfolding disk_total
tmp_disk_of disks none = 0
tmp_disk_of disks (some nstr) = disk_total disks (atoi nstr)

-- at least one CPU
at_least_one : ℤ → ℤ
at_least_one cpu = if ltb_ℤ cpu (pos 1) then pos 1 else cpu

unfoldable pub worker_of : Disks → Member → WorkerInfo
unfolding tag member_ip tmp_disk_of at_least_one
worker_of disks m = record {
  name = member_ip m;
  addr = member_ip m;
  cpus = at_least_one (atoi (tag "cpu" m.tags)).0;
  mem_mb = (atoi (tag "ram" m.tags)).0;
  gpus = (atoi (tag "gpu" m.tags)).0;
  tmp_disk = tmp_disk_of disks (lookup "ndisks" m.tags);
}

-- the loop of buildWorkerList, over the alive members
unfoldable pub workers_of : Disks → String → List Member → List WorkerInfo
unfolding tag member_ip worker_of
workers_of disks local_ip [] = []
workers_of disks local_ip (m ∷ ms) =
    let rest = workers_of disks local_ip ms in
    let phase = tag "phase" m.tags in
    if member_ip m == local_ip
    then rest
    else if phase == "discovering" || phase == "electing"
    then rest
    else worker_of disks m ∷ rest

unfoldable pub build_worker_list : Disks → String → List Member → List WorkerInfo
unfolding workers_of get_alive_members
build_worker_list disks local_ip members = workers_of disks local_ip (get_alive_members members)

unfoldable pub sort_workers : List WorkerInfo → List WorkerInfo
sort_workers = sort_by (λ w. w.name)

-- The text that shows whether the workers changed; `acc` is what the loop has built.
unfoldable pub hash_from : String → List WorkerInfo → String
hash_from acc [] = acc
hash_from acc (w ∷ ws) = hash_from (acc ++ (w.name ++ ("," ++ (w.addr ++ ";")))) ws

-- One tick of the watcher: whether the daemon is being stopped, whether there is still a controller, and
-- Serf's members.
pub record Tick : Type 0 where
  pub cancelled : Bool
  pub has_ctrl : Bool
  pub members : List Member

-- The lists that the controller is reconfigured with, in order.
unfoldable pub watch_workers : Disks → String → String → List Tick → List (List WorkerInfo)
unfolding build_worker_list sort_workers hash_from
watch_workers disks local_ip last_hash [] = []
watch_workers disks local_ip last_hash (tick ∷ ticks) =
    let workers = sort_workers (build_worker_list disks local_ip tick.members) in
    let hash = hash_from "" workers in
    let same = watch_workers disks local_ip last_hash ticks in
    let changed = watch_workers disks local_ip hash ticks in
    if tick.cancelled
    then []
    else if not tick.has_ctrl
    then []
    else if hash == last_hash
    then same
    else workers ∷ changed
