-- ===== src/ControlPlane/Store.antt =====
-- The tables of the control plane (backend/internal/db/migrations) and the queries of the rollout
-- manager (backend/internal/db/queries). The database answers every query: only a missing row is
-- an error. Rows stand in the order of their creation.
pub mod Active
use ota_robot_system.Base.{
  ℕ, ◌+◌, String, Bool, true, false, not, ◌&&◌, ◌||◌, Option, none, some, List, [], ◌∷◌, ◌++◌, map,
  filter, find, ◌==◌, string_eq, if◌then◌else◌,
}
use ota_robot_system.Types.{
  Device, online, FirmwareVersion, Deployment, DeploymentStatus, pending, running, completed,
  failed, rolled_back,
}

-- A row of `deployment_devices`. The status is the text that a robot reports.
pub record UnitRow : Type 0 where
  pub deployment_id : String
  pub device_id : String
  pub status : String
  pub progress : ℕ
  pub error_message : Option String
  pub previous_version : Option String

-- What is published for a robot: an update to a version, by its address, checksum and signature,
-- for a hardware model; a rollback to a version, with the reason.
pub data Command : Type 0 where
  update : (version hw_model download_url sha256_checksum signature : String) → Command
  rollback : (version reason : String) → Command

pub record Store : Type 0 where
  pub deployments : List Deployment
  pub units : List UnitRow
  pub devices : List Device
  pub firmware : List FirmwareVersion
  -- the commands given to the dispatcher, whether it could send them or not: errors are logged only
  pub commands : List (String × Command)

unfoldable pub publish_command : String → Command → Store → Store
publish_command device_id cmd s = record s { commands = s.commands ++ (device_id, cmd) ∷ [] }

abbrev pub find_deployment : String → List Deployment → Option Deployment
find_deployment id ds = find (λ d. d.id == id) ds

abbrev pub get_deployment : String → Store → Option Deployment
get_deployment id s = find_deployment id s.deployments

abbrev pub get_firmware_version : String → Store → Option FirmwareVersion
get_firmware_version id s = find (λ f. f.id == id) s.firmware

abbrev pub get_device : String → Store → Option Device
get_device id s = find (λ d. d.id == id) s.devices

-- `UPDATE deployments SET ... WHERE id = $1`.
abbrev pub change : String → (Deployment → Deployment) → List Deployment → List Deployment
change id f ds = map (λ d. if d.id == id then f d else d) ds

abbrev pub with_status : DeploymentStatus → Deployment → Deployment
with_status st d = record d { status = st }

abbrev pub with_phase : ℕ → ℕ → Deployment → Deployment
with_phase phase percentage d = record d { current_phase = phase; canary_percentage = percentage }

unfoldable pub update_deployment_status : String → DeploymentStatus → Store → Store
update_deployment_status id st s = record s {
  deployments = change id (with_status st) s.deployments;
}

unfoldable pub update_deployment_phase : String → ℕ → ℕ → Store → Store
update_deployment_phase id phase percentage s = record s {
  deployments = change id (with_phase phase percentage) s.deployments;
}

unfoldable pub increment_deployment_success : String → Store → Store
increment_deployment_success id s = record s {
  deployments = change id (λ d. record d { success_count = d.success_count + 1 }) s.deployments;
}

unfoldable pub increment_deployment_failure : String → Store → Store
increment_deployment_failure id s = record s {
  deployments = change id (λ d. record d { failure_count = d.failure_count + 1 }) s.deployments;
}

-- `d.status = 'running'`.
abbrev pub is_running : DeploymentStatus → Bool
is_running st = elim st [
  | running ↦ true
  | pending ↦ false
  | completed ↦ false
  | failed ↦ false
  | rolled_back ↦ false
]

unfoldable pub runs : Option Deployment → Bool
runs none = false
runs (some d) = is_running d.status

abbrev is_terminal : String → Bool
is_terminal status = status == "success" || status == "failed" || status == "rolled_back"

abbrev later_or : Option UnitRow → Option UnitRow → Option UnitRow
later_or (some v) o = some v
later_or none o = o

-- The last row that passes a test: `ORDER BY created_at DESC LIMIT 1`.
last_such : (UnitRow → Bool) → List UnitRow → Option UnitRow
last_such p [] = none
last_such p (u ∷ us) = later_or (last_such p us) (if p u then some u else none)

-- The part belongs to a rollout that runs, or it has not ended.
is_active : UnitRow → Option Deployment → Bool
is_active u none = false
is_active u (some d) = is_running d.status || not (is_terminal u.status)

-- The newest active part of a robot.
unfoldable pub get_active_deployment_device_by_device : String → Store → Option UnitRow
unfolding is_active last_such
get_active_deployment_device_by_device device_id s =
    last_such (λ u. u.device_id == device_id && is_active u (get_deployment u.deployment_id s))
      s.units

unfoldable pub update_deployment_device_status :
    String → String → String → ℕ → Option String → Store → Store
update_deployment_device_status deployment_id device_id status progress error_message s = record s {
  units =
      map
        (λ u.
          if u.deployment_id == deployment_id && u.device_id == device_id
          then record u { status = status; progress = progress; error_message = error_message }
          else u)
        s.units;
}

abbrev pub list_deployment_devices : String → Store → List UnitRow
list_deployment_devices id s = filter (λ u. u.deployment_id == id) s.units

-- The robot counts as online again.
unfoldable pub update_device_version : String → String → Store → Store
update_device_version id version s = record s {
  devices =
      map (λ d. if d.id == id then record d { current_version = version; status = online } else d)
        s.devices;
}
