-- ===== src/RobotDetail/Decommission.antt =====
-- The removal of robots as the operator meets it: the dialog of one robot
-- (frontend/src/components/RobotDetailModal.tsx) on the overview (frontend/src/app/page.tsx), under
-- any sequence of clicks and answers. The overview keeps the dialog mounted when it is closed, and
-- shows in it the robot as it was in the list when it was selected.
pub mod Safe
use ota_robot_system.Base.{
  ℕ, ◌+◌, ◌-◌, String, Bool, true, false, not, ◌&&◌, Option, none, some, List, [], ◌∷◌, ltb, nat_eq,
  if◌then◌else◌, Out,
}
use ota_robot_system.Types.{Device, is_online}
use ota_robot_system.Types.Reply.{Reply, resolved, rejected}
use ota_robot_system.RobotDetail.Removal.{Dialog, delete_start, delete_settle}

pub record Desk : Type 0 where
  -- `selectedDevice` of the overview
  pub selected : Option Device
  pub dialog : Dialog
  -- the robots whose removal was asked for, last one first, and the calls without an answer
  pub asked : List Device
  pub calling : ℕ

abbrev pub begin : Desk
begin = record {
  selected = none;
  dialog = record { is_deleting = false; confirm_delete = false };
  asked = [];
  calling = 0;
}

pub data Event : Type 0 where
  -- the button of a row, "Close", "Decommission Unit", "Cancel" and "Yes, Remove"
  selects : Device → Event
  closes asks cancels confirms : Event
  -- the answer to the removal of a robot
  replies : Device → Reply (Unit {0}) → Event

-- The part of the footer for the removal: it is there for a robot that is shown as not online.
offers : Option Device → Bool
offers none = false
offers (some d) = not (is_online d)

unfoldable pub set_confirm_delete : Bool → Desk → Desk
unfolding offers
set_confirm_delete b s =
    if offers s.selected then record s { dialog = record s.dialog { confirm_delete = b } } else s

call : Option Device → Desk → Desk
call none s = s
call (some d) s = record s {
  dialog = record s.dialog { is_deleting = true };
  asked = d ∷ s.asked;
  calling = s.calling + 1;
}

-- "Yes, Remove": `handleDeleteDevice` up to the call, of a button that is locked during a call.
unfoldable pub confirm : Desk → Desk
unfolding offers call
confirm s =
    if offers s.selected && s.dialog.confirm_delete && not s.dialog.is_deleting
    then call s.selected s
    else s

-- `onClose` sets the selection of the overview to `null`.
closed_after : Reply (Unit {0}) → Option Device → Option Device
closed_after (resolved u) selected = none
closed_after (rejected e) selected = selected

-- The rest of `handleDeleteDevice`, of a call that waits. Its notification and the load of the
-- fleet that `onDeleted` starts are left out.
unfoldable pub answer : Device → Reply (Unit {0}) → Desk → Desk
unfolding closed_after
answer d r s =
    if ltb 0 s.calling
    then record s {
      selected = closed_after r s.selected;
      dialog = (delete_settle d r s.dialog).state;
      calling = s.calling - 1;
    }
    else s

unfoldable pub step : Desk → Event → Desk
unfolding set_confirm_delete confirm answer
step s (selects d) = record s { selected = some d }
step s closes = record s { selected = none }
step s asks = set_confirm_delete true s
step s cancels = set_confirm_delete false s
step s confirms = confirm s
step s (replies d r) = answer d r s

unfoldable pub steps : Desk → List Event → Desk
unfolding step
steps s [] = s
steps s (e ∷ es) = steps (step s e) es
