-- ===== src/Slurm/Munge/Delivered.antt =====
-- The munge key reaches a node by a user event: node/internal/services/slurm/auth/munge.go with the handlers of
-- node/internal/daemon/daemon.go.
use cluster_os.Prelude.{
  String, ◌≡◌, refl, sym, ap, subst, ◌∙◌, Bool, true, false, Option, none, some, List, [], ◌∷◌, ◌⊎◌,
  inl, inr, any, Option-cases, if◌then◌else◌,
}
use cluster_os.Auth.{Bytes}
use cluster_os.Discovery.Creating.{handle_user_event}
use cluster_os.Slurm.Munge.{
  Munge, Starting, World, stop_existing, key_in_use, survived, launched, with_key, then_start,
  with_payload, start_munge_daemon, write_munge_key, on_ca_cert, on_munge_key,
}

-- The handlers in the order in which initDiscovery registers them.
abbrev pub handlers :
    Bool
    → Bool
    → (String → String ⊎ Bytes)
    → Option String
    → Option String
    → Starting
    → List (String → String → World → World × Option String)
handlers first second decode dir written a =
    on_ca_cert first second ∷ on_munge_key decode dir written a ∷ []

-- A munged that ends on SIGTERM no longer runs, and the key on disk is as before.
stop_existing-ends :
    (a : Starting) (m : Munge)
    → a.ends ≡ true
    → ((stop_existing a m).key_file ≡ m.key_file) × ((stop_existing a m).loaded ≡ none)
unfolding stop_existing
stop_existing-ends a m ends = elim (Option-cases m.loaded) [
  | inl idle ↦ rw idle (refl, refl)
  | inr (key, runs) ↦ rw (runs, ends) (refl, refl)
]

-- The daemon has read the key of the file, and there is no error.
abbrev pub Loads : Munge × Option String → Bytes → Type 0
Loads (m, failed) key = (m.loaded ≡ some key) × (m.key_file ≡ some key) × (failed ≡ none)

launched-Loads :
    (b : Bool) (started : Munge) (key : Bytes)
    → started.loaded ≡ some key
    → started.key_file ≡ some key
    → Loads (if b then (record started { socket = true }, none) else (started, none)) key
launched-Loads true started key h k = (h, k, refl)
launched-Loads false started key h k = (h, k, refl)

-- With no other munged, a start that works gives the daemon the key on disk.
launch-Loads :
    (a : Starting) (m : Munge) (key : Bytes)
    → m.key_file ≡ some key
    → m.loaded ≡ none
    → a.start_error ≡ none
    → a.died ≡ none
    → Loads (with_key m.key_file a m) key
unfolding with_key launched survived key_in_use
launch-Loads a m key file idle starts lives =
    let started : Munge = record m { loaded = key_in_use a m } in
    let read : started.loaded ≡ some key = rw idle file in
    let seen = any (λ seen. seen) a.looks in
    let path =
      ap (λ k. with_key k a m) file
      ∙ (ap (λ e. launched e a m) starts
          ∙ ap
              (λ d. if seen then (record started { socket = true }, none) else survived d m started)
              lives) in
    subst (λ o. Loads o key) (sym path) (launched-Loads seen started key read file)

-- A start that works gives the daemon the key on disk, whichever it had read before.
start-Loads :
    (a : Starting) (m : Munge) (key : Bytes)
    → m.key_file ≡ some key
    → a.ends ≡ true
    → a.start_error ≡ none
    → a.died ≡ none
    → Loads (start_munge_daemon a m) key
unfolding start_munge_daemon
start-Loads a m key file ends starts lives =
    let stopped = stop_existing-ends a m ends in
    launch-Loads a (stop_existing a m) key (stopped.0 ∙ file) stopped.1 starts lives

-- The key is on disk and has been read, and the certificates are as before.
abbrev IsDelivered : Bytes → World → World → Type 0
IsDelivered key w after =
    (after.munge.key_file ≡ some key)
    × (after.munge.loaded ≡ some key)
    × (after.agent_ca ≡ w.agent_ca)
    × (after.server_ca ≡ w.server_ca)

-- A node that receives the user event of the munge key, whatever key it had and whatever munged was running,
-- has the leader's key on disk afterwards and runs a munged that has read it, and its CA certificates are as
-- before. This is so whether or not a new munged would take over from one that still runs. The node decodes
-- what the leader encoded, a munged that runs ends on SIGTERM, and writing the key and starting munged do not
-- fail.
pub munge_key_delivered :
    (first second : Bool) (decode : String → String ⊎ Bytes) (encode : Bytes → String)
    (a : Starting) (key : Bytes) (w : World)
    → decode (encode key) ≡ inr key
    → a.ends ≡ true
    → a.start_error ≡ none
    → a.died ≡ none
    → let after =
        handle_user_event (handlers first second decode none none a) "munge-key" (encode key) w in
      (after.munge.key_file ≡ some key)
      × (after.munge.loaded ≡ some key)
      × (after.agent_ca ≡ w.agent_ca)
      × (after.server_ca ≡ w.server_ca)
unfolding handle_user_event on_ca_cert on_munge_key with_payload write_munge_key then_start
munge_key_delivered first second decode encode a key w decodes ends starts lives =
    let loads = start-Loads a (record w.munge { key_file = some key }) key refl ends starts lives in
    subst (IsDelivered key w) (sym (ap (λ r. (with_payload none none a w r).0) decodes))
      (loads.1, loads.0, refl, refl)
