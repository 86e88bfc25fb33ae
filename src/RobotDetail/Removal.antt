-- ===== src/RobotDetail/Removal.antt =====
-- `handleDeleteDevice` of the dialog, before and after it awaits the control plane.
use ota_robot_system.Base.{
  String, Bool, true, false, Option, none, some, [], ◌∷◌, or_else, concat, Out, toast, callback,
  default_duration, success, error,
}
use ota_robot_system.Types.{Device}
use ota_robot_system.Types.Telemetry.{get_error_message}
use ota_robot_system.Types.Reply.{Reply, resolved, rejected}

pub record Dialog : Type 0 where
  pub is_deleting : Bool
  pub confirm_delete : Bool

-- The id that is asked to be removed, if a robot is shown.
unfoldable pub delete_start : Option Device → Dialog → Option (String × Dialog)
delete_start none s = none
delete_start (some d) s = some (d.id, record s { is_deleting = true })

unfoldable pub delete_settle : Device → Reply (Unit {0}) → Dialog → Out Dialog
delete_settle d (resolved r) s = record {
  state = record { is_deleting = false; confirm_delete = false };
  effects =
      toast "Robot Decommissioned"
        (concat "Robot node " (concat (or_else d.name d.id) " removed from fleet registry")) success
        default_duration
      ∷ callback "onDeleted"
      ∷ callback "onClose"
      ∷ [];
}
delete_settle d (rejected e) s = record {
  state = record s { is_deleting = false };
  effects =
      toast "Decommission Failed" (get_error_message e "Failed to decommission robot") error
        default_duration
      ∷ [];
}
