-- ===== src/DeployForm/View.antt =====
-- What the launch form shows and which of its controls can be used.
use ota_robot_system.Base.{
  ℕ, String, Bool, not, ◌||◌, ◌&&◌, List, map, filter, includes, length, truthy, or_else, get_or,
  ◌==◌, string_eq, nat_eq, if◌then◌else◌, concat,
}
use ota_robot_system.Types.{is_online}
use ota_robot_system.Planning.{derive_factories}
use ota_robot_system.DeployForm.{Form, eligible_devices, target_devices}

-- A button of the catalogue: the version, the notes and whether it is pressed.
pub record FirmwareChoice : Type 0 where
  pub label : String
  pub notes : String
  pub pressed : Bool

unfoldable pub firmware_choices : Form → List FirmwareChoice
firmware_choices s =
    map
      (λ f. record {
        label = concat "v" f.version;
        notes = or_else (get_or f.release_notes "") "Standard release";
        pressed = s.selected_fw_id == f.id;
      })
      s.firmwares

-- The options of the factory list, each with the number of its online robots.
unfoldable pub factory_options : Form → List (String × ℕ)
factory_options s =
    map (λ f. (f, length (filter (λ d. d.factory_id == f && is_online d) s.devices)))
      (derive_factories s.devices)

-- The boxes of the manual list: the id and whether it is ticked.
unfoldable pub robot_boxes : Form → List (String × Bool)
robot_boxes s = map (λ d. (d.id, includes s.selected_device_ids d.id)) (eligible_devices s)

unfoldable pub select_all_label : Form → String
select_all_label s =
    if length s.selected_device_ids == length (eligible_devices s)
    then "Deselect All"
    else "Select All Online"

unfoldable pub broadcast_disabled : Form → Bool
broadcast_disabled s =
    s.is_launching || length (target_devices s) == 0 || not (truthy s.selected_fw_id)

unfoldable pub broadcast_label : Form → String
broadcast_label s = if s.is_launching then "Broadcasting Rollout..." else "Broadcast OTA Deployment"
