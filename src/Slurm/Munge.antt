-- ===== src/Slurm/Munge.antt =====
-- node/internal/services/slurm/auth/munge.go: the munge key on disk and the daemon that has read it. Making
-- directories and changing owners, whose errors the code ignores, is the system's.
pub mod Delivered
use cluster_os.Prelude.{
  String, Bool, true, false, Option, none, some, List, ◌==◌, ◌⊎◌, inl, inr, any, ◌&&◌, not,
  if◌then◌else◌, is_some,
}
use cluster_os.Prelude.Errors.{after_text, caused}
use cluster_os.Auth.{Bytes}

-- The file /etc/munge/munge.key, the key that the munged which answers has read, and whether there is its
-- socket.
pub record Munge : Type 0 where
  pub key_file : Option Bytes
  pub loaded : Option Bytes
  pub socket : Bool

-- A change, with the error if there is one.
abbrev pub Outcome : Type 0
Outcome = Munge × Option String

-- GenerateMungeKey, from what crypto/rand gives
unfoldable pub generate_munge_key : String ⊎ Bytes → String ⊎ Bytes
generate_munge_key (inl e) = inl (caused "generate munge key" e)
generate_munge_key (inr key) = inr key

-- WriteMungeKey, with the errors of the directory and of the file
unfoldable pub write_munge_key : Option String → Option String → Bytes → Munge → Outcome
write_munge_key (some e) written key m = (m, some (caused "create munge dir" e))
write_munge_key none (some e) key m = (m, some (caused "write munge key" e))
write_munge_key none none key m = (record m { key_file = some key }, none)

-- ReadMungeKey
unfoldable pub read_munge_key : Munge → String ⊎ Bytes
read_munge_key m = elim m.key_file [
  | none ↦ inl (caused "read munge key" "no such file")
  | some key ↦ inr key
]

-- What starting munged meets: whether a munged that runs ends within half a second of SIGTERM, whether one that
-- is started with --force takes over from one that runs, the error of the start, whether the socket is there at each of the ten looks,
-- and whether the process lives after them, with what it has written if it does not.
pub record Starting : Type 0 where
  pub ends : Bool
  pub takes_over : Bool
  pub start_error : Option String
  pub looks : List Bool
  pub died : Option String

-- A daemon that runs is told to stop first, and its socket removed.
unfoldable pub stop_existing : Starting → Munge → Munge
stop_existing a m =
    if is_some m.loaded
    then record m { loaded = if a.ends then none else m.loaded; socket = false }
    else m

-- The key that is in use once another munged has been started: where one still runs that it does not take over
-- from, that one goes on with its own.
unfoldable pub key_in_use : Starting → Munge → Option Bytes
key_in_use a m = if is_some m.loaded && not a.takes_over then m.loaded else m.key_file

-- Where the socket has not appeared: an error if the process is dead, with what it has written.
unfoldable pub survived : Option String → Munge → Munge → Outcome
survived (some e) before started = (before, some (caused "munged died" e))
survived none before started = (started, none)

-- The start of the process, and the wait for the socket.
unfoldable pub launched : Option String → Starting → Munge → Outcome
unfolding survived key_in_use
launched (some e) a m = (m, some (caused "start munged" e))
launched none a m =
    let started = record m { loaded = key_in_use a m } in
    if any (λ seen. seen) a.looks
    then (record started { socket = true }, none)
    else survived a.died m started

unfoldable pub with_key : Option Bytes → Starting → Munge → Outcome
unfolding launched
with_key none a m = (m, some (after_text "munge key not found at " "/etc/munge/munge.key"))
with_key (some key) a m = launched a.start_error a m

-- StartMungeDaemon
unfoldable pub start_munge_daemon : Starting → Munge → Outcome
unfolding stop_existing with_key
start_munge_daemon a m = let stopped = stop_existing a m in with_key stopped.key_file a stopped

-- What the handlers of user events change: the copies of the CA certificate, and munge.
pub record World : Type 0 where
  pub agent_ca : Option String
  pub server_ca : Option String
  pub munge : Munge

-- The handler of k3s-ca-cert; each of the two writes may fail.
unfoldable pub on_ca_cert : Bool → Bool → String → String → World → World × Option String
on_ca_cert first second name payload w =
    if name == "k3s-ca-cert"
    then (
      record w {
        agent_ca = if first then some payload else w.agent_ca;
        server_ca = if second then some payload else w.server_ca;
      },
      none,
    )
    else (w, none)

-- The handler of munge-key after WriteMungeKey.
unfoldable pub then_start : Starting → World → Outcome → World × Option String
unfolding start_munge_daemon
then_start a w (kept, some e) = (record w { munge = kept }, some e)
then_start a w (kept, none) =
    let (started, failed) = start_munge_daemon a kept in (record w { munge = started }, failed)

unfoldable pub with_payload :
    Option String → Option String → Starting → World → String ⊎ Bytes → World × Option String
unfolding write_munge_key then_start
with_payload dir written a w (inl e) = (w, some e)
with_payload dir written a w (inr key) = then_start a w (write_munge_key dir written key w.munge)

-- The handler of munge-key, where `decode` is base64's.
unfoldable pub on_munge_key :
    (String → String ⊎ Bytes)
    → Option String
    → Option String
    → Starting
    → String
    → String
    → World
    → World × Option String
unfolding with_payload
on_munge_key decode dir written a name payload w =
    if name == "munge-key" then with_payload dir written a w (decode payload) else (w, none)
