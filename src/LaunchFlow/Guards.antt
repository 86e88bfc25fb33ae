-- ===== src/LaunchFlow/Guards.antt =====
-- What holds of the form whenever the dialog is open, and what stays as it was loaded.
use ota_robot_system.Base.{
  ◌≡◌, String, true, false, none, List, length, ltb, truthy, ◌==◌, nat_eq, arith,
}
use ota_robot_system.Types.{Device, FirmwareVersion}
use ota_robot_system.Types.Reply.{Reply, resolved, rejected}
use ota_robot_system.DeployForm.{
  Form, default_factory, toggle_device_selection, select_all_custom, target_devices, target_models,
}
use ota_robot_system.DeployForm.Launch.{handle_open_risk_modal, launch_settle}
use ota_robot_system.LaunchFlow.{Edit, chooses_firmware, edit, is_listed, is_shown}

-- Of the fleet `ds` and the catalogue `fws`: the firmware that is chosen is in the catalogue, and
-- an open dialog has targets of one model.
pub record IsGuarded (ds : List Device) (fws : List FirmwareVersion) (s : Form) : Type 0 where
  pub fleet : s.devices ≡ ds
  pub catalogue : s.firmwares ≡ fws
  pub known : truthy s.selected_fw_id ≡ true → is_listed fws s.selected_fw_id ≡ true
  pub listed : s.is_risk_modal_open ≡ true → is_listed fws s.selected_fw_id ≡ true
  pub targeted : s.is_risk_modal_open ≡ true → (length (target_devices s) == 0) ≡ false
  pub uniform : s.is_risk_modal_open ≡ true → ltb 1 (length (target_models s)) ≡ false

module _ (ds : List Device) (fws : List FirmwareVersion) where
  pub handle_open_risk_modal-IsGuarded :
      (s : Form) → IsGuarded ds fws s → IsGuarded ds fws (handle_open_risk_modal s).state
  unfolding handle_open_risk_modal
  handle_open_risk_modal-IsGuarded s g = ground (arith, g)

  -- With the dialog closed only the first three facts are left.
  record IsClosed (s : Form) : Type 0 where
    fleet : s.devices ≡ ds
    catalogue : s.firmwares ≡ fws
    known : truthy s.selected_fw_id ≡ true → is_listed fws s.selected_fw_id ≡ true
    shut : s.is_risk_modal_open ≡ false

  IsGuarded-of_closed : (s : Form) → IsClosed s → IsGuarded ds fws s
  IsGuarded-of_closed s c = ground arith

  IsClosed-of_hidden : (s : Form) → is_shown s ≡ false → IsGuarded ds fws s → IsClosed s
  IsClosed-of_hidden s h g = ground arith

  edit-IsClosed : (e : Edit) (s : Form) → IsClosed s → IsClosed (edit e s)
  unfolding edit toggle_device_selection select_all_custom
  edit-IsClosed (chooses_firmware id) s c = ground arith
  edit-IsClosed _ s c = ground arith

  default_factory-IsClosed : (s : Form) → IsClosed s → IsClosed (default_factory s)
  unfolding default_factory
  default_factory-IsClosed s c = ground arith

  pub edit-IsGuarded :
      (e : Edit) (s : Form)
      → is_shown s ≡ false
      → IsGuarded ds fws s
      → IsGuarded ds fws (default_factory (edit e s))
  edit-IsGuarded e s h g =
      IsGuarded-of_closed (default_factory (edit e s))
        (default_factory-IsClosed (edit e s) (edit-IsClosed e s (IsClosed-of_hidden s h g)))

  pub launch_settle-IsGuarded :
      (r : Reply String) (s : Form)
      → IsGuarded ds fws s
      → IsGuarded ds fws (launch_settle "" "" r s).state
  unfolding launch_settle
  launch_settle-IsGuarded (resolved id) s g = ground arith
  launch_settle-IsGuarded (rejected e) s g = ground arith

  pub begin-IsGuarded :
      (s : Form)
      → s.devices ≡ ds
      → s.firmwares ≡ fws
      → (truthy s.selected_fw_id ≡ true → is_listed fws s.selected_fw_id ≡ true)
      → s.is_risk_modal_open ≡ false
      → IsGuarded ds fws s
  begin-IsGuarded s d f k o = ground arith

  pub launching-IsGuarded :
      (s : Form)
      → IsGuarded ds fws s
      → IsGuarded ds fws (record s { is_launching = true; error_text = none })
  launching-IsGuarded s g = ground arith

  pub closed-IsGuarded :
      (s : Form) → IsGuarded ds fws s → IsGuarded ds fws (record s { is_risk_modal_open = false })
  closed-IsGuarded s g = ground arith
