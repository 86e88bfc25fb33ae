-- ===== src/ControlPlane/Launch/Whole.antt =====
-- From the launch form of the dashboard to the commands for the robots.
use ota_robot_system.Base.{
  ◌≤◌, ◌≡◌, refl, ◌∙◌, ap, String, true, false, some, List, [], ◌∷◌, ◌++◌, All, length, string_eq,
  eq_refl, truthy, arith, Bool-cases, inl, inr,
}
use ota_robot_system.Types.{Device, is_online, FirmwareVersion}
use ota_robot_system.DeployForm.{Form, target_devices}
use ota_robot_system.DeployForm.Launch.{handle_open_risk_modal, launch_payload}
use ota_robot_system.DeployForm.Launch.Safety.{
  confirm_launch-handle_open_risk_modal, launch_payload-settings, All-target_devices,
}
use ota_robot_system.ControlPlane.Store.{Store, get_firmware_version, get_device}
use ota_robot_system.ControlPlane.Manager.Follows.{updates}
use ota_robot_system.ControlPlane.Canary.{Event, Started, start}
use ota_robot_system.ControlPlane.Canary.Steps.{ids}
use ota_robot_system.ControlPlane.Canary.Ends.{Reaches, updates-start}
use ota_robot_system.ControlPlane.Launch.{
  Services, created, or_all, fits, update_to, enlist, create_deployment, received,
}
use ota_robot_system.ControlPlane.Launch.Accepted.{
  IsFitting, create_deployment-received, enlist-commands,
}

fits-or_all : (d : Device) → fits (or_all d.hw_model) d ≡ true
fits-or_all d = elim (Bool-cases (truthy d.hw_model)) [
  | inl e ↦ rw e (ground (arith, eq_refl d.hw_model))
  | inr e ↦ rw e refl
]

All-IsFitting :
    (m : String) (ds : List Device) (s : Store)
    → All (λ d. get_device d.id s ≡ some d) ds
    → All (λ d. (is_online d ≡ true) × (d.hw_model ≡ m)) ds
    → All (IsFitting (or_all m) s) ds
All-IsFitting m [] s h k = tt
All-IsFitting m (d ∷ ds) s h k =
    ((h.0, rw (← (k.0.1)) (fits-or_all d)), All-IsFitting m ds s h.1 k.1)

-- The rollout that a form asks for.
abbrev pub rollout_of : Services → Form → FirmwareVersion → String → Store → Started
rollout_of w f fw url s =
    start (w.new_id s) f.strategy (target_devices f)
      (update_to fw (or_all (launch_payload f).hw_model) url)
      (enlist w fw f.strategy (record { num = f.rollback_threshold; den = 100 }) (target_devices f)
        s)

-- A launch form whose risk assessment opens, with a threshold from 5 to 50 per cent, at a control
-- plane that has the robots of the form's list as they are there and the chosen firmware: the
-- request is taken and starts a rollout of exactly the targets of the form; and when this has come
-- to its end, whatever was reported and asked for meanwhile, the updates sent since then went to
-- these robots, to each of them once.
pub create_deployment-launch_payload :
    (w : Services) (f : Form) (fw_id url : String) (fw : FirmwareVersion) (s t : Store)
    (es : List Event)
    → f.is_risk_modal_open ≡ false
    → (handle_open_risk_modal f).state.is_risk_modal_open ≡ true
    → 5 ≤ f.rollback_threshold
    → f.rollback_threshold ≤ 50
    → w.parse_uuid f.selected_fw_id ≡ some fw_id
    → get_firmware_version fw_id s ≡ some fw
    → w.presigned_get_object fw.storage_key ≡ some url
    → All (λ d. get_device d.id s ≡ some d) f.devices
    → Reaches (rollout_of w f fw url s) es t
    → (create_deployment w (received (launch_payload f)) s
        ≡ created (w.new_id s) (length (target_devices f)) f.strategy (rollout_of w f fw url s))
      × (updates t.commands ≡ updates s.commands ++ ids (target_devices f))
create_deployment-launch_payload w f fw_id url fw s t es shut opens low high a b c rows ends =
    let (sent, chosen, some_fw, named, targeted, models) =
      confirm_launch-handle_open_risk_modal f shut opens in
    let (strategy, threshold) = launch_payload-settings f in
    let p = launch_payload f in
    let ds = target_devices f in
    (
      create_deployment-received w p fw_id url fw f.rollback_threshold ds s (rw chosen a) b c
            threshold low high targeted named
            (All-IsFitting p.hw_model ds s
              (All-target_devices (λ d. get_device d.id s ≡ some d) f rows) models)
          ∙ ap
              (λ st. created (w.new_id s) (length ds) st (
                start (w.new_id s) st ds (update_to fw (or_all p.hw_model) url)
                  (enlist w fw st (record { num = f.rollback_threshold; den = 100 }) ds s)))
              strategy,
      updates-start (w.new_id s) f.strategy ds (update_to fw (or_all p.hw_model) url)
            (enlist w fw f.strategy (record { num = f.rollback_threshold; den = 100 }) ds s) t es tt
            ends
          ∙ ap (λ cs. updates cs ++ ids ds)
              (enlist-commands w fw f.strategy (record { num = f.rollback_threshold; den = 100 }) ds
                s),
    )
