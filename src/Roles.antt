-- ===== src/Roles.antt =====
-- node/internal/roles/manager.go and role.go. A role is known by what its health check and its stop return.
pub mod Registry
use cluster_os.Prelude.{
  String, Bool, true, false, Option, none, some, List, [], ◌∷◌, is_some, if◌then◌else◌,
}
use cluster_os.Prelude.Maps.{Map, lookup, insert, delete}
use cluster_os.Prelude.Errors.{after_text}

-- BaseRole
pub record BaseRole : Type 0 where
  pub name : String
  pub running : Bool

unfoldable pub new_base_role : String → BaseRole
new_base_role name = record { name = name; running = false }

-- Stop of BaseRole
unfoldable pub base_stop : BaseRole → BaseRole
base_stop br = record br { running = false }

-- HealthCheck of BaseRole: the error, if there is one
unfoldable pub base_health_check : BaseRole → Option String
base_health_check br =
    if br.running then none else some (after_text (after_text "role " br.name) " is not running")

-- RoleStatus
pub record RoleStatus : Type 0 where
  pub name : String
  pub running : Bool
  pub healthy : Bool
  pub error : String

-- GetStatus
unfoldable pub get_status : BaseRole → RoleStatus
get_status br = record { name = br.name; running = br.running; healthy = br.running; error = "" }

module _ {ℓ} {Role : Type ℓ} where
  -- RegisterRole, UnregisterRole and IsRoleRunning of the manager
  unfoldable pub register_role : String → Role → Map Role → Map Role
  register_role name role roles = insert name role roles

  unfoldable pub unregister_role : String → Map Role → Map Role
  unregister_role name roles = delete name roles

  unfoldable pub is_role_running : String → Map Role → Bool
  is_role_running name roles = is_some (lookup name roles)

  -- HealthCheck of the manager: the results by name, and the roles after their checks
  unfoldable pub health_check_all :
      (Role → Role × Option String) → Map Role → Map Role × Map (Option String)
  health_check_all check [] = ([], [])
  health_check_all check ((name, role) ∷ rest) =
      let (after, result) = check role in
      let (roles, results) = health_check_all check rest in
      ((name, after) ∷ roles, (name, result) ∷ results)

  -- Register and IsRegistered of the registry; a factory stands for what it makes
  unfoldable pub register : String → Role → Map Role → Map Role × Option String
  register name factory factories =
      if is_some (lookup name factories)
      then (factories, some (after_text (after_text "role " name) " is already registered"))
      else (insert name factory factories, none)

  unfoldable pub is_registered : String → Map Role → Bool
  is_registered name factories = is_some (lookup name factories)
