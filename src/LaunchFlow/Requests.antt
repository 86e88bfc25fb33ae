-- ===== src/LaunchFlow/Requests.antt =====
-- Every request that the launch page makes is for online robots of one model.
use mathlib.Core.Bool.{true≢false}
use ota_robot_system.Base.{
  ◌≡◌, ◌≢◌, refl, sym, ◌∙◌, String, Bool, true, false, not, ◌&&◌, ◌||◌, List, [], ◌∷◌, map, any,
  filter, length, ltb, truthy, ◌==◌, string_eq, nat_eq, All, All-filter_of, Bool-cases, inl, inr,
  arith, eq_iff,
}
use ota_robot_system.Types.{Device, FirmwareVersion, CreateDeploymentPayload, is_online}
use ota_robot_system.Planning.{
  TargetScope, all, factory, custom, derive_eligible_devices, derive_target_devices,
}
use ota_robot_system.DeployForm.{Form, target_devices}
use ota_robot_system.DeployForm.Launch.{confirm_launch, launch_payload}
use ota_robot_system.DeployForm.Launch.Safety.{launch_payload_lem}
use ota_robot_system.DeployForm.View.{broadcast_disabled}
use ota_robot_system.LaunchFlow.{
  Flow, begin, is_listed, is_shown, Event, edits, broadcasts, checks, confirms, cancels, replies,
  opens, confirm, cancel, answer, step, sends, steps,
}
use ota_robot_system.LaunchFlow.Guards.{
  IsGuarded, launching-IsGuarded, closed-IsGuarded, begin-IsGuarded,
  handle_open_risk_modal-IsGuarded, edit-IsGuarded, launch_settle-IsGuarded,
}

-- The id is that of an online robot of the model.
abbrev pub is_target : List Device → String → String → Bool
is_target ds model id = any (λ d. d.id == id && is_online d && d.hw_model == model) ds

-- The firmware is in the catalogue, and there are targets, all of them online and of the model.
abbrev pub IsSafe : List Device → List FirmwareVersion → CreateDeploymentPayload → Type 0
IsSafe ds fws p =
    (is_listed fws p.firmware_id ≡ true)
    × (p.device_ids ≢ [])
    × All (λ id. is_target ds p.hw_model id ≡ true) p.device_ids

-- The robot is in the fleet, by its id and its model.
is_known : List Device → Device → Bool
is_known ds d = is_target ds d.hw_model d.id

-- Whatever holds of a robot for a later part of the fleet holds for all of it.
All-known_within :
    (ds xs : List Device)
    → ((d : Device) → is_known xs d ≡ true → is_known ds d ≡ true)
    → All (λ d. is_known ds d ≡ true) (filter is_online xs)
unfolding is_known
All-known_within ds [] sub = tt
All-known_within ds (x ∷ xs) sub =
    let rest = All-known_within ds xs λ d h. sub d (ground (arith, h)) in
    elim (Bool-cases (is_online x)) [
      | inl e ↦
          rw e (sub x (ground (arith, e, eq_iff x.id x.id, eq_iff x.hw_model x.hw_model)), rest)
      | inr e ↦ rw e rest
    ]

All-known :
    (ds : List Device) (scope : TargetScope) (f : String) (ids : List String)
    → All
        (λ d. is_known ds d ≡ true)
        (derive_target_devices (derive_eligible_devices ds) scope f ids)
unfolding derive_target_devices derive_eligible_devices
All-known ds all f ids = All-known_within ds ds (λ d h. h)
All-known ds factory f ids =
    All-filter_of (λ d. is_known ds d ≡ true) _ _ (All-known_within ds ds (λ d h. h))
All-known ds custom f ids =
    All-filter_of (λ d. is_known ds d ≡ true) _ _ (All-known_within ds ds (λ d h. h))

All-is_target :
    (ds : List Device) (model : String) (xs : List Device)
    → All (λ d. is_known ds d ≡ true) xs
    → All (λ d. (is_online d ≡ true) × (d.hw_model ≡ model)) xs
    → All (λ id. is_target ds model id ≡ true) (map (λ d. d.id) xs)
unfolding is_known
All-is_target ds model [] h k = tt
All-is_target ds model (x ∷ xs) h k = (rw k.0.1 at h.0, All-is_target ds model xs h.1 k.1)

map-ne-nil : (xs : List Device) → (length xs == 0) ≡ false → map (λ d. d.id) xs ≢ []
map-ne-nil [] h e = absurd (true≢false h)
map-ne-nil (x ∷ xs) h e = cc

module _ (ds : List Device) (fws : List FirmwareVersion) where
  launch_payload-IsSafe :
      (s : Form)
      → IsGuarded ds fws s
      → s.is_risk_modal_open ≡ true
      → IsSafe ds fws (launch_payload s)
  launch_payload-IsSafe s g o =
      let (fw, ids, models) = launch_payload_lem s (g.uniform o) in
      let known : All (λ d. is_known ds d ≡ true) (target_devices s) =
        rw (← g.fleet)
          (All-known s.devices s.target_scope s.selected_factory s.selected_device_ids) in
      (
        rw fw (g.listed o),
        λ e. map-ne-nil (target_devices s) (g.targeted o) (sym ids ∙ e),
        rw ids (All-is_target ds (launch_payload s).hw_model (target_devices s) known models),
      )

  -- What is kept by every step.
  record IsHeld (s : Flow) : Type 0 where
    guarded : IsGuarded ds fws s.form
    safe : All (IsSafe ds fws) s.sent

  confirm-IsHeld :
      (s : Flow) → is_shown s.form ≡ true → IsHeld s → IsHeld (sends (confirm_launch s.form) s)
  unfolding sends confirm_launch
  confirm-IsHeld s o h =
      elim (Bool-cases
        (not (truthy s.form.selected_fw_id) || length (target_devices s.form) == 0)) [
          | inl e ↦ rw e h
          | inr e ↦ rw e (record {
            guarded = launching-IsGuarded ds fws s.form h.guarded;
            safe = (launch_payload-IsSafe s.form h.guarded (ground (arith, o)), h.safe);
          })
        ]

  step-IsHeld : (s : Flow) (e : Event) → IsHeld s → IsHeld (step s e)
  unfolding step opens confirm cancel answer
  step-IsHeld s (edits e) h = elim (Bool-cases (is_shown s.form)) [
    | inl k ↦ rw k h
    | inr k ↦ rw k (record { guarded = edit-IsGuarded ds fws e s.form k h.guarded; safe = h.safe })
  ]
  step-IsHeld s broadcasts h = elim (Bool-cases (broadcast_disabled s.form || is_shown s.form)) [
    | inl k ↦ rw k h
    | inr k ↦ rw k (record {
      guarded = handle_open_risk_modal-IsGuarded ds fws s.form h.guarded;
      safe = h.safe;
    })
  ]
  step-IsHeld s (checks b) h = elim (Bool-cases (is_shown s.form)) [
    | inl k ↦ rw k (record { guarded = h.guarded; safe = h.safe })
    | inr k ↦ rw k h
  ]
  step-IsHeld s confirms h =
      elim (Bool-cases (is_shown s.form && s.acknowledged && not s.form.is_launching)) [
        | inl k ↦ rw k (confirm-IsHeld s (ground (arith, k)) h)
        | inr k ↦ rw k h
      ]
  step-IsHeld s cancels h = elim (Bool-cases (is_shown s.form && not s.form.is_launching)) [
    | inl k ↦ rw k (record { guarded = closed-IsGuarded ds fws s.form h.guarded; safe = h.safe })
    | inr k ↦ rw k h
  ]
  step-IsHeld s (replies r) h = elim (Bool-cases (ltb 0 s.pending)) [
    | inl k ↦
        rw k (record { guarded = launch_settle-IsGuarded ds fws r s.form h.guarded; safe = h.safe })
    | inr k ↦ rw k h
  ]

  steps-IsHeld : (es : List Event) (s : Flow) → IsHeld s → IsHeld (steps s es)
  unfolding steps
  steps-IsHeld [] s h = h
  steps-IsHeld (e ∷ es) s h = steps-IsHeld es (step s e) (step-IsHeld s e h)

-- From a loaded form with its dialog closed, whatever is clicked and answered, each request that is
-- sent names a firmware of the catalogue and at least one robot, and all robots that it names are
-- online robots of the fleet of the model that it names.
pub steps-begin-IsSafe :
    (f : Form) (es : List Event)
    → (truthy f.selected_fw_id ≡ true → is_listed f.firmwares f.selected_fw_id ≡ true)
    → f.is_risk_modal_open ≡ false
    → All (IsSafe f.devices f.firmwares) (steps (begin f) es).sent
steps-begin-IsSafe f es known shut =
    (steps-IsHeld f.devices f.firmwares es (begin f) (record {
      guarded = begin-IsGuarded f.devices f.firmwares f refl refl known shut;
      safe = tt;
    })).safe
