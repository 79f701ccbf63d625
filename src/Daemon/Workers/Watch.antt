-- ===== src/Daemon/Workers/Watch.antt =====
-- Which nodes the SLURM controller is told of, and when (node/internal/daemon/daemon.go).
use cluster_os.Prelude.{
  String, ◌≡◌, refl, Bool, ◌&&◌, not, List, [], ◌∷◌, ◌==◌, any, any-filter, map, elem, arith,
  Bool-cases, inl, inr, eq_refl,
}
use cluster_os.Discovery.Member.{Member, is_alive, tag, get_alive_members}
use cluster_os.Daemon.ControlPlane.{member_ip}
use cluster_os.Daemon.Workers.{
  WorkerInfo, Disks, worker_of, workers_of, build_worker_list, sort_workers, hash_from, Tick,
  watch_workers,
}

abbrev pub names : List WorkerInfo → List String
names ws = map (λ w. w.name) ws

-- A member that takes part, seen from a leader: it is another node, and past its election.
abbrev pub takes_part : String → Member → Bool
takes_part local_ip m =
    not (member_ip m == local_ip)
    && (not (tag "phase" m.tags == "discovering") && not (tag "phase" m.tags == "electing"))

workers_of-elem :
    (disks : Disks) (local_ip ip : String) (ms : List Member)
    → elem ip (names (workers_of disks local_ip ms))
      ≡ any (λ m. takes_part local_ip m && member_ip m == ip) ms
unfolding workers_of elem any worker_of
workers_of-elem disks local_ip ip [] = refl
workers_of-elem disks local_ip ip (m ∷ ms) = ground (arith, workers_of-elem disks local_ip ip ms)

-- An IP is among the workers exactly if an alive member with that IP takes part.
pub build_worker_list_exact :
    (disks : Disks) (local_ip ip : String) (members : List Member)
    → elem ip (names (build_worker_list disks local_ip members))
      ≡ any (λ m. is_alive m.status && (takes_part local_ip m && member_ip m == ip)) members
unfolding build_worker_list get_alive_members
build_worker_list_exact disks local_ip ip members =
    rw (workers_of-elem disks local_ip ip (get_alive_members members)) (any-filter _ _ members)

-- A tick that finds what the tick before it found reconfigures nothing.
pub watch_workers_settles :
    (disks : Disks) (local_ip last_hash : String) (tick : Tick) (ticks : List Tick)
    → watch_workers disks local_ip last_hash (tick ∷ tick ∷ ticks)
      ≡ watch_workers disks local_ip last_hash (tick ∷ ticks)
unfolding watch_workers
watch_workers_settles disks local_ip last_hash tick ticks =
    let hash = hash_from "" (sort_workers (build_worker_list disks local_ip tick.members)) in
    elim (Bool-cases tick.cancelled) [
      | inl c ↦ rw c refl
      | inr c ↦ elim (Bool-cases tick.has_ctrl) [
        | inr k ↦ rw (c, k) refl
        | inl k ↦ elim (Bool-cases (hash == last_hash)) [
          | inl e ↦ rw (c, k, e) refl
          | inr e ↦ rw (c, k, e, eq_refl hash) refl
        ]
      ]
    ]
