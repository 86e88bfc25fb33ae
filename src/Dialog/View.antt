-- ===== src/Dialog/View.antt =====
-- What the two risk assessments show (frontend/src/components/DeployRiskModal.tsx and
-- RollbackRiskModal.tsx). The size of the firmware is left out; `decimal` writes a number.
use ota_robot_system.Base.{ℕ, String, Bool, not, ◌||◌, if◌then◌else◌, concat}
use ota_robot_system.Types.{FirmwareVersion, Strategy, full, canary}
use ota_robot_system.Planning.{TargetScope, all, factory, custom}
use ota_robot_system.Catalog.{first_letters}

-- What the page hands to the dialog of a launch.
pub record LaunchProps : Type 0 where
  pub is_launching : Bool
  pub firmware : FirmwareVersion
  pub target_devices_count : ℕ
  pub target_scope : TargetScope
  pub selected_factory : String
  pub strategy : Strategy
  pub rollback_threshold : ℕ

scope_label : TargetScope → String → String
scope_label all chosen = "All Online"
scope_label factory chosen = chosen
scope_label custom chosen = "Custom List"

strategy_name : Strategy → String
strategy_name full = "full"
strategy_name canary = "canary"

strategy_label : Strategy → String
strategy_label full = "Direct Full"
strategy_label canary = "Phased 20-100%"

pub record LaunchSummary : Type 0 where
  pub version : String
  pub units : String
  pub scope : String
  pub strategy : String
  pub plan : String
  pub abort_limit : String

unfoldable pub launch_summary : (ℕ → String) → LaunchProps → LaunchSummary
unfolding scope_label strategy_name strategy_label
launch_summary decimal p = record {
  version = concat "v" p.firmware.version;
  units = concat (decimal p.target_devices_count) " Units";
  scope = scope_label p.target_scope p.selected_factory;
  strategy = strategy_name p.strategy;
  plan = strategy_label p.strategy;
  abort_limit = concat (decimal p.rollback_threshold) "%";
}

unfoldable pub abort_note : (ℕ → String) → LaunchProps → String
abort_note decimal p =
    concat "Rollout aborts if failure rate exceeds " (concat (decimal p.rollback_threshold) "%.")

unfoldable pub checksum_label : LaunchProps → String
checksum_label p = concat "SHA256: " (concat (first_letters 20 p.firmware.sha256_checksum) "...")

unfoldable pub consent_text : (ℕ → String) → LaunchProps → String
consent_text decimal p =
    concat "I understand the operational impact and authorize OTA rollout across "
      (concat (decimal p.target_devices_count) " robot units.")

-- The buttons at the foot: closing is possible without a call, going on wants the box as well.
pub record Buttons : Type 0 where
  pub cancel_text : String
  pub cancel_disabled : Bool
  pub confirm_text : String
  pub confirm_disabled : Bool

-- Of the box and of a call that is going on.
unfoldable pub launch_buttons : Bool → Bool → Buttons
launch_buttons acknowledged is_launching = record {
  cancel_text = "Cancel";
  cancel_disabled = is_launching;
  confirm_text = if is_launching then "Broadcasting..." else "Authorize & Launch Rollout";
  confirm_disabled = not acknowledged || is_launching;
}

unfoldable pub rollback_buttons : Bool → Bool → Buttons
rollback_buttons acknowledged is_rolling_back = record {
  cancel_text = "Keep Current (Cancel)";
  cancel_disabled = is_rolling_back;
  confirm_text =
      if is_rolling_back then "Dispatching Rollback..." else "Confirm Emergency Rollback";
  confirm_disabled = not acknowledged || is_rolling_back;
}

-- The rollout and the robots that a rollback is about.
unfoldable pub rollback_summary : (ℕ → String) → String → ℕ → String × String
rollback_summary decimal deployment_id count =
    (deployment_id, concat (decimal count) " Robot Units")
