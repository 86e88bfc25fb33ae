-- ===== src/RobotDetail/View.antt =====
-- What the dialog of one robot shows for what it derived.
use ota_robot_system.Base.{String, Bool, not, Option, if◌then◌else◌}
use ota_robot_system.Types.{Device, is_online}
use ota_robot_system.Types.Telemetry.{DeviceTelemetry}
use ota_robot_system.RobotDetail.{is_busy, battery_ok, can_deploy}

-- The footer: a link to the launcher, or a disabled button with its text.
pub data Footer : Type 0 where
  launch : Footer
  locked : String → Footer

module _ (d : Device) (t : Option DeviceTelemetry) where
  -- The badge of the workload.
  unfoldable pub workload_label : String
  workload_label =
      if not (is_online d)
      then "OFFLINE"
      else if is_busy d t
      then "RUNNING PROGRAM (BUSY)"
      else "IDLE (STANDBY)"

  unfoldable pub task_label : String
  task_label =
      if not (is_online d)
      then "No connection"
      else if is_busy d t
      then "Cycle in progress"
      else "None (Standby)"

  -- "OTA Upgrade Safety Gate".
  unfoldable pub gate_label : String
  gate_label =
      if not (is_online d)
      then "Blocked (Offline)"
      else if is_busy d t
      then "Locked (Program Running)"
      else if not (battery_ok d t)
      then "Locked (Low Battery)"
      else "Cleared (Safe to Upgrade)"

  -- The start of the explanation below the gate.
  unfoldable pub explanation : String
  explanation =
      if can_deploy d t
      then "OTA Pre-flight Cleared"
      else if is_busy d t
      then "Safety Interlock Engaged"
      else if not (is_online d)
      then "OTA Unreachable"
      else "OTA Safety Gate"

  unfoldable pub footer : Footer
  footer =
      if can_deploy d t
      then launch
      else locked (
          if not (is_online d)
          then "OTA Blocked (Offline)"
          else if is_busy d t
          then "OTA Locked (Robot Busy)"
          else "OTA Blocked (Battery < 50%)")

  -- The button that starts the removal is there.
  unfoldable pub offers_removal : Bool
  offers_removal = not (is_online d)
