-- ===== src/DeployForm/Launch.antt =====
-- `handleOpenRiskModal` and `handleConfirmLaunch` of the launch form.
pub mod Safety
use ota_robot_system.Base.{
  ℕ, String, Bool, true, false, ◌||◌, Option, none, some, List, [], ◌∷◌, length, ltb, truthy, not,
  ◌==◌, nat_eq, if◌then◌else◌, concat, Out, only, Effect, toast, push, success, error, warning,
  default_duration, find, string_eq,
}
use ota_robot_system.Types.{Device, FirmwareVersion, CreateDeploymentPayload}
use ota_robot_system.Types.Telemetry.{get_error_message}
use ota_robot_system.Types.Reply.{Reply, resolved, rejected}
use ota_robot_system.Planning.{RolloutDraft, prepare_deployment_payload}
use ota_robot_system.DeployForm.{Form, target_devices, target_models}

-- A refusal: the message on the page, and a notification.
refuse : String → String → String → Form → Out Form
refuse message title text s = record {
  state = record s { error_text = some message };
  effects = toast title text warning default_duration ∷ [];
}

unfoldable pub handle_open_risk_modal : Form → Out Form
unfolding refuse
handle_open_risk_modal s =
    if not (truthy s.selected_fw_id)
    then refuse "Please select a target firmware version." "Target Firmware Missing"
        "Please select a target firmware version before deploying." s
    else if length (target_devices s) == 0
    then refuse "No eligible online devices selected for deployment." "No Target Units"
        "No eligible online robots selected in current fleet scope." s
    else if ltb 1 (length (target_models s))
    then refuse
        "The selected scope mixes hardware models. Use Manual Selection and choose one model per rollout."
        "Mixed Hardware Models"
        "For firmware safety, each rollout must target a single robot hardware model." s
    else only (record s { error_text = none; is_risk_modal_open = true })

abbrev pub draft_of : Form → RolloutDraft
draft_of s = record {
  selected_fw_id = s.selected_fw_id;
  target_scope = s.target_scope;
  selected_factory = s.selected_factory;
  selected_device_ids = s.selected_device_ids;
  strategy = s.strategy;
  rollback_threshold = s.rollback_threshold;
}

-- `payload.hw_model = targetDevices[0].hw_model`, if there is a target.
with_model : List Device → CreateDeploymentPayload → CreateDeploymentPayload
with_model [] p = p
with_model (d ∷ ds) p = record p { hw_model = d.hw_model }

unfoldable pub launch_payload : Form → CreateDeploymentPayload
unfolding with_model
launch_payload s =
    with_model (target_devices s) (prepare_deployment_payload (draft_of s) (target_devices s))

-- `handleConfirmLaunch` up to the call: the payload to send, or nothing.
unfoldable pub confirm_launch : Form → Option (CreateDeploymentPayload × Form)
confirm_launch s =
    if not (truthy s.selected_fw_id) || length (target_devices s) == 0
    then none
    else some (launch_payload s, record s { is_launching = true; error_text = none })

version_of : Option FirmwareVersion → String
version_of none = ""
version_of (some f) = f.version

-- After the call: the id of the new rollout, or what was thrown. The version and the number of
-- robots of the notification are those when the launch was confirmed, in text.
unfoldable pub launch_settle : String → String → Reply String → Form → Out Form
launch_settle version count (resolved id) s = record {
  state = record s { is_risk_modal_open = false };
  effects =
      toast "OTA Deployment Initiated"
        (concat "Rollout command dispatched for v"
          (concat version (concat " across " (concat count " robot nodes"))))
        success default_duration
      ∷ push (concat "/deployments/" id)
      ∷ [];
}
launch_settle version count (rejected e) s = record {
  state = record s {
    error_text = some (get_error_message e "Failed to trigger deployment.");
    is_launching = false;
  };
  effects =
      toast "Deployment Failed" (get_error_message e "Failed to trigger deployment.") error
        default_duration
      ∷ [];
}

-- `selectedFw?.version || ""`.
unfoldable pub selected_version : Form → String
unfolding version_of
selected_version s = version_of (find (λ f. f.id == s.selected_fw_id) s.firmwares)
