-- ===== src/LaunchFlow.antt =====
-- The launch page as its operator meets it (frontend/src/app/deploy/page.tsx with the risk
-- assessment of frontend/src/components/DeployRiskModal.tsx in it): the form, the consent of the
-- dialog, and the calls of the control plane, under any sequence of clicks and answers. While the
-- dialog is shown it covers the page, so the fields of the form are out of reach.
mod Guards
pub mod Load
pub mod Requests
pub mod Once
pub mod Consent
pub mod Clicks
pub mod Examples
use ota_robot_system.Base.{
  ℕ, zero, suc, ◌-◌, ◌+◌, String, Bool, true, false, not, ◌&&◌, ◌||◌, Option, none, some, List, [],
  ◌∷◌, ◌++◌, any, find, is_some, length, ltb, ◌==◌, string_eq, nat_eq, if◌then◌else◌, Out,
}
use ota_robot_system.Types.{Strategy, FirmwareVersion, CreateDeploymentPayload}
use ota_robot_system.Types.Reply.{Reply, resolved, rejected}
use ota_robot_system.Planning.{TargetScope}
use ota_robot_system.DeployForm.{
  Form, default_factory, toggle_device_selection, select_all_custom, target_devices,
}
use ota_robot_system.DeployForm.Launch.{handle_open_risk_modal, confirm_launch, launch_settle}
use ota_robot_system.DeployForm.View.{broadcast_disabled}

pub record Flow : Type 0 where
  pub form : Form
  -- the box of the risk assessment
  pub acknowledged : Bool
  -- the payloads that were sent, last one first, and the calls without an answer
  pub sent : List CreateDeploymentPayload
  pub pending : ℕ
  -- the rollouts that the control plane has accepted
  pub accepted : ℕ

abbrev pub begin : Form → Flow
begin f = record { form = f; acknowledged = false; sent = []; pending = 0; accepted = 0 }

-- A change of one field. A firmware is chosen by its button, so it is one of the catalogue.
pub data Edit : Type 0 where
  chooses_firmware chooses_factory toggles : String → Edit
  chooses_scope : TargetScope → Edit
  chooses_strategy : Strategy → Edit
  chooses_threshold : ℕ → Edit
  selects_all : Edit

-- Whether a firmware is in the catalogue.
abbrev pub is_listed : List FirmwareVersion → String → Bool
is_listed fws id = any (λ f. f.id == id) fws

-- The handler of the field.
unfoldable pub edit : Edit → Form → Form
edit (chooses_firmware id) s =
    if is_listed s.firmwares id then record s { selected_fw_id = id } else s
edit (chooses_factory name) s = record s { selected_factory = name }
edit (toggles id) s = toggle_device_selection id s
edit (chooses_scope scope) s = record s { target_scope = scope }
edit (chooses_strategy strategy) s = record s { strategy = strategy }
edit (chooses_threshold n) s = record s { rollback_threshold = n }
edit selects_all s = select_all_custom s

-- The dialog is rendered: it is open, and the chosen firmware is known.
abbrev pub is_shown : Form → Bool
is_shown s = s.is_risk_modal_open && is_listed s.firmwares s.selected_fw_id

pub data Event : Type 0 where
  edits : Edit → Event
  broadcasts : Event
  checks : Bool → Event
  confirms cancels : Event
  replies : Reply String → Event

-- The click on the button of the form; a dialog that opens starts with its box empty.
unfoldable pub opens : Flow → Flow
opens s = if broadcast_disabled s.form || is_shown s.form then s else record s {
  form = (handle_open_risk_modal s.form).state;
  acknowledged =
      s.acknowledged
      && not (
          not s.form.is_risk_modal_open
          && (handle_open_risk_modal s.form).state.is_risk_modal_open);
}

-- The call that a confirmation makes, if it makes one.
unfoldable pub sends : Option (CreateDeploymentPayload × Form) → Flow → Flow
sends none s = s
sends (some (payload, form)) s = record s {
  form = form;
  sent = payload ∷ s.sent;
  pending = s.pending + 1;
}

-- `handleConfirm` of the dialog, which calls `handleConfirmLaunch`.
unfoldable pub confirm : Flow → Flow
unfolding sends
confirm s =
    if is_shown s.form && s.acknowledged && not s.form.is_launching
    then sends (confirm_launch s.form) s
    else s

unfoldable pub cancel : Flow → Flow
cancel s =
    if is_shown s.form && not s.form.is_launching
    then record s { form = record s.form { is_risk_modal_open = false } }
    else s

accepted_by : Reply String → ℕ
accepted_by (resolved id) = 1
accepted_by (rejected e) = 0

-- An answer, to a call that waits for one. The texts of the notification are left open.
unfoldable pub answer : Reply String → Flow → Flow
unfolding accepted_by
answer r s =
    if ltb 0 s.pending
    then record s {
      form = (launch_settle "" "" r s.form).state;
      pending = s.pending - 1;
      accepted = s.accepted + accepted_by r;
    }
    else s

-- The effect that fills in the factory follows each change of the form.
unfoldable pub step : Flow → Event → Flow
unfolding opens confirm cancel answer
step s (edits e) =
    if is_shown s.form then s else record s { form = default_factory (edit e s.form) }
step s broadcasts = opens s
step s (checks b) = if is_shown s.form then record s { acknowledged = b } else s
step s confirms = confirm s
step s cancels = cancel s
step s (replies r) = answer r s

unfoldable pub steps : Flow → List Event → Flow
unfolding step
steps s [] = s
steps s (e ∷ es) = steps (step s e) es
