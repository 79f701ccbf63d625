-- ===== src/Daemon/Slurm.antt =====
-- The Start of the SLURM roles: node/internal/services/slurm/controller/controller.go and
-- node/internal/services/slurm/worker/worker.go, in what they do to the munge key on disk and in their
-- errors. Writing files and starting processes is the world's.
use Prim.Native.String.{◌++◌}
use cluster_os.Prelude.{String, Bool, Option, none, some, if◌then◌else◌}
use cluster_os.Auth.{Bytes}

-- The errors of the steps of a start. A write of the munge key that fails leaves the file as it was.
pub record Starting : Type 0 where
  pub dirs_error : Option String
  pub config_error : Option String
  pub write_error : Option String
  pub munge_error : Option String
  pub process_error : Option String

-- An error with what was being done.
unfoldable pub wrap : String → Option String → Option String
wrap what none = none
wrap what (some e) = some (what ++ (": " ++ e))

-- The first error of two steps, the second of which is only taken after a success.
unfoldable pub or_next : Option String → Option String → Option String
or_next none next = next
or_next (some e) next = some e

-- The file after WriteMungeKey.
unfoldable pub write_munge_key : Option String → Bytes → Option Bytes → Option Bytes
write_munge_key none key file = some key
write_munge_key (some e) key file = file

-- Start of the controller: the munge key file, and the error.
unfoldable pub start_controller : Starting → Bytes → Option Bytes → Option Bytes × Option String
unfolding wrap or_next write_munge_key
start_controller a key file =
    elim (or_next (wrap "create directories" a.dirs_error)
      (wrap "generate slurm.conf" a.config_error)) [
        | some e ↦ (file, some e)
        | none ↦ (
          write_munge_key a.write_error key file,
          or_next (wrap "write munge key" a.write_error)
              (or_next (wrap "start munge" a.munge_error) (wrap "start slurmctld" a.process_error)),
        )
      ]

-- Start of a worker, which writes a configuration for clients unless it runs beside the controller.
unfoldable pub start_worker : Bool → Starting → Bytes → Option Bytes → Option Bytes × Option String
unfolding wrap or_next write_munge_key
start_worker skip_client_config a key file =
    let config =
      if skip_client_config then none else wrap "write slurm client config" a.config_error in
    (
      write_munge_key a.write_error key file,
      or_next (wrap "write munge key" a.write_error) (
          or_next (wrap "start munge" a.munge_error)
            (or_next config (wrap "start slurmd" a.process_error))),
    )
