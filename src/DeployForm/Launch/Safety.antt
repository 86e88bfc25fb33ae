-- ===== src/DeployForm/Launch/Safety.antt =====
-- What is launched after the risk assessment was opened.
use mathlib.Core.Bool.{true≢false}
use ota_robot_system.Base.{
  ◌≤◌, ◌≡◌, ◌≢◌, refl, sym, ap, ◌∙◌, String, true, false, none, some, List, [], ◌∷◌, map, length,
  length-append, ltb, includes, truthy, truthy_iff, ◌==◌, nat_eq, string_eq, All, All-filter,
  All-filter_of, Bool-cases, inl, inr, arith, eq_iff,
}
use ota_robot_system.Types.{Device, is_online, CreateDeploymentPayload}
use ota_robot_system.Planning.{
  TargetScope, all, factory, custom, add, prepare_deployment_payload, derive_eligible_devices,
  derive_target_devices,
}
use ota_robot_system.DeployForm.{Form, target_devices, target_models, distinct}
use ota_robot_system.DeployForm.Launch.{
  handle_open_risk_modal, confirm_launch, launch_payload, draft_of, with_model,
}

length-distinct-le : (s xs : List String) → length s ≤ length (distinct s xs)
unfolding distinct add
length-distinct-le s [] = omega arith
length-distinct-le s (x ∷ xs) =
    ground (arith, length-distinct-le (add s x) xs, length-append s (x ∷ []))

-- A set that holds one text grows unless every text is that one.
distinct_one :
    (x : String) (xs : List String) → length (distinct (x ∷ []) xs) ≤ 1 → All (λ y. y ≡ x) xs
unfolding distinct add
distinct_one x [] h = tt
distinct_one x (y ∷ xs) h = elim (Bool-cases (x == y)) [
  | inl e ↦ (sym ((eq_iff x y).0 e), distinct_one x xs (rw e at h))
  | inr e ↦ absurd (omega (arith, length-distinct-le (x ∷ y ∷ []) xs, (rw e at h)))
]

All-map-≡ :
    (x : String) (ds : List Device)
    → All (λ y. y ≡ x) (map (λ d. d.hw_model) ds)
    → All (λ d. d.hw_model ≡ x) ds
All-map-≡ x [] h = tt
All-map-≡ x (d ∷ ds) h = (h.0, All-map-≡ x ds h.1)

All-with_model :
    (p : CreateDeploymentPayload) (ds : List Device)
    → ltb 1 (length (distinct [] (map (λ d. d.hw_model) ds))) ≡ false
    → All (λ d. d.hw_model ≡ (with_model ds p).hw_model) ds
unfolding with_model distinct add
All-with_model p [] h = tt
All-with_model p (d ∷ ds) h = (
  refl,
  All-map-≡ d.hw_model ds (distinct_one d.hw_model (map (λ c. c.hw_model) ds) (ground arith)),
)

All-online :
    (devices : List Device) (scope : TargetScope) (f : String) (ids : List String)
    → All
        (λ d. is_online d ≡ true)
        (derive_target_devices (derive_eligible_devices devices) scope f ids)
unfolding derive_target_devices derive_eligible_devices
All-online devices all f ids = All-filter is_online devices
All-online devices factory f ids =
    All-filter_of (λ d. is_online d ≡ true) (λ d. d.factory_id == f) _
      (All-filter is_online devices)
All-online devices custom f ids =
    All-filter_of (λ d. is_online d ≡ true) (λ d. includes ids d.id) _
      (All-filter is_online devices)

All-targets :
    (P : Device → Type 0) (devices : List Device) (scope : TargetScope) (f : String)
    (ids : List String)
    → All P devices
    → All P (derive_target_devices (derive_eligible_devices devices) scope f ids)
unfolding derive_target_devices derive_eligible_devices
All-targets P devices all f ids h = All-filter_of P is_online devices h
All-targets P devices factory f ids h =
    All-filter_of P (λ d. d.factory_id == f) _ (All-filter_of P is_online devices h)
All-targets P devices custom f ids h =
    All-filter_of P (λ d. includes ids d.id) _ (All-filter_of P is_online devices h)

All-both :
    (m : String) (ds : List Device)
    → All (λ d. is_online d ≡ true) ds
    → All (λ d. d.hw_model ≡ m) ds
    → All (λ d. (is_online d ≡ true) × (d.hw_model ≡ m)) ds
All-both m [] h k = tt
All-both m (d ∷ ds) h k = ((h.0, k.0), All-both m ds h.1 k.1)

-- What the guards of `handleOpenRiskModal` have let through.
opened :
    (s : Form)
    → s.is_risk_modal_open ≡ false
    → (handle_open_risk_modal s).state.is_risk_modal_open ≡ true
    → (truthy s.selected_fw_id ≡ true)
      × ((length (target_devices s) == 0) ≡ false)
      × (ltb 1 (length (target_models s)) ≡ false)
      × ((handle_open_risk_modal s).state
          ≡ record s { error_text = none; is_risk_modal_open = true })
unfolding handle_open_risk_modal
opened s shut h = ground (arith, shut, h)

with_model-device_ids :
    (ds : List Device) (p : CreateDeploymentPayload)
    → ((with_model ds p).device_ids ≡ p.device_ids)
      × ((with_model ds p).firmware_id ≡ p.firmware_id)
unfolding with_model
with_model-device_ids [] p = (refl, refl)
with_model-device_ids (d ∷ ds) p = (refl, refl)

with_model-settings :
    (ds : List Device) (p : CreateDeploymentPayload)
    → ((with_model ds p).strategy ≡ p.strategy)
      × ((with_model ds p).rollback_threshold ≡ p.rollback_threshold)
unfolding with_model
with_model-settings [] p = (refl, refl)
with_model-settings (d ∷ ds) p = (refl, refl)

-- The settings of the form are those of the payload, the threshold in hundredths.
pub launch_payload-settings :
    (s : Form)
    → ((launch_payload s).strategy ≡ s.strategy)
      × ((launch_payload s).rollback_threshold ≡ record { num = s.rollback_threshold; den = 100 })
unfolding launch_payload prepare_deployment_payload
launch_payload-settings s =
    with_model-settings (target_devices s)
      (prepare_deployment_payload (draft_of s) (target_devices s))

-- What holds of all robots of the list holds of the targets.
pub All-target_devices :
    (P : Device → Type 0) (s : Form) → All P s.devices → All P (target_devices s)
All-target_devices P s h =
    All-targets P s.devices s.target_scope s.selected_factory s.selected_device_ids h

-- What the payload names, when the targets are of one model.
pub launch_payload_lem :
    (s : Form)
    → ltb 1 (length (target_models s)) ≡ false
    → ((launch_payload s).firmware_id ≡ s.selected_fw_id)
      × ((launch_payload s).device_ids ≡ map (λ d. d.id) (target_devices s))
      × All
          (λ d. (is_online d ≡ true) × (d.hw_model ≡ (launch_payload s).hw_model))
          (target_devices s)
unfolding launch_payload prepare_deployment_payload
launch_payload_lem s m =
    let payload = prepare_deployment_payload (draft_of s) (target_devices s) in
    let (ids, fw) = with_model-device_ids (target_devices s) payload in
    (
      fw,
      ids,
      All-both (launch_payload s).hw_model (target_devices s)
          (All-online s.devices s.target_scope s.selected_factory s.selected_device_ids)
          (All-with_model payload (target_devices s) m),
    )

-- If the risk assessment opens, a confirmation sends a request. It names the chosen firmware and
-- exactly the targeted robots, of which there is at least one; all of them are online in the
-- list that was loaded, and of the hardware model that the request names.
pub confirm_launch-handle_open_risk_modal :
    (s : Form)
    → s.is_risk_modal_open ≡ false
    → (handle_open_risk_modal s).state.is_risk_modal_open ≡ true
    → (confirm_launch (handle_open_risk_modal s).state
        ≡ some (
          launch_payload s,
          record s { error_text = none; is_risk_modal_open = true; is_launching = true },
        ))
      × ((launch_payload s).firmware_id ≡ s.selected_fw_id)
      × (s.selected_fw_id ≢ "")
      × ((launch_payload s).device_ids ≡ map (λ d. d.id) (target_devices s))
      × (target_devices s ≢ [])
      × All
          (λ d. (is_online d ≡ true) × (d.hw_model ≡ (launch_payload s).hw_model))
          (target_devices s)
unfolding confirm_launch launch_payload
confirm_launch-handle_open_risk_modal s shut h =
    let (t, n, m, e) = opened s shut h in
    let (fw, ids, models) = launch_payload_lem s m in
    (
      rw (e, t, n),
      fw,
      (truthy_iff s.selected_fw_id).0 t,
      ids,
      λ z. true≢false (sym (ap (λ ds. length ds == 0) z) ∙ n),
      models,
    )
