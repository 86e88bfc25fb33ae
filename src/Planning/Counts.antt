-- ===== src/Planning/Counts.antt =====
-- What `evaluateRolloutPlan` reports.
use ota_robot_system.Base.{
  ℕ, ◌+◌, ◌*◌, ◌≤◌, ◌<◌, ◌≡◌, ◌≢◌, ◌↔◌, refl, true, false, Option, some, List, [], ◌∷◌, length,
  filter, ◌==◌, string_eq, arith, eq_iff,
}
use ota_robot_system.Types.{Device, FirmwareVersion, Strategy, full, canary}
use ota_robot_system.Planning.{
  RolloutDraft, sentinels, subsequents, rollout_errors, version_warnings, evaluate_rollout_plan,
}

sentinels-add-subsequents : (s : Strategy) (n : ℕ) → sentinels s n + subsequents s n ≡ n
unfolding sentinels subsequents
sentinels-add-subsequents full n = omega arith
sentinels-add-subsequents canary n = ground arith

-- The first wave and the later one together are the targets, for both strategies and for every
-- number of targets, none included.
pub sentinel_count-add-subsequent_count :
    (draft : RolloutDraft) (targets : List Device) (fw : Option FirmwareVersion)
    → (evaluate_rollout_plan draft targets fw).sentinel_count
        + (evaluate_rollout_plan draft targets fw).subsequent_count
      ≡ length targets
unfolding evaluate_rollout_plan
sentinel_count-add-subsequent_count draft targets fw =
    sentinels-add-subsequents draft.strategy (length targets)

sentinels_bounds :
    (n : ℕ)
    → 0 < n
    → (1 ≤ sentinels canary n)
      × (sentinels canary n ≤ n)
      × (n ≤ 5 * sentinels canary n)
      × (5 * sentinels canary n < n + 5)
unfolding sentinels
sentinels_bounds n h = ground arith

-- A canary plan with targets starts with at least one of them and at most all, and with the least
-- number of them that is a fifth or more.
pub sentinel_count_bounds :
    (draft : RolloutDraft) (targets : List Device) (fw : Option FirmwareVersion)
    → draft.strategy ≡ canary
    → 0 < length targets
    → (1 ≤ (evaluate_rollout_plan draft targets fw).sentinel_count)
      × ((evaluate_rollout_plan draft targets fw).sentinel_count ≤ length targets)
      × (length targets ≤ 5 * (evaluate_rollout_plan draft targets fw).sentinel_count)
      × (5 * (evaluate_rollout_plan draft targets fw).sentinel_count < length targets + 5)
unfolding evaluate_rollout_plan
sentinel_count_bounds draft targets fw c h = rw c (sentinels_bounds (length targets) h)

-- The plan is valid exactly when a firmware is named and there is a target.
pub is_valid_iff :
    (draft : RolloutDraft) (targets : List Device) (fw : Option FirmwareVersion)
    → ((evaluate_rollout_plan draft targets fw).is_valid ≡ true)
      ↔ ((draft.selected_fw_id ≢ "") × (targets ≢ []))
unfolding evaluate_rollout_plan rollout_errors
is_valid_iff draft [] fw =
    (λ h. ground (arith, eq_iff draft.selected_fw_id ""), λ h. absurd (h.1 refl))
is_valid_iff draft (d ∷ ds) fw = (
  λ h. (λ e. ground (arith, eq_iff draft.selected_fw_id ""), λ e. ground arith),
  λ h. ground (arith, h.0, eq_iff draft.selected_fw_id ""),
)

length-version_warnings :
    (fw : FirmwareVersion) (ds : List Device)
    → length (version_warnings fw ds) ≡ length (filter (λ d. d.current_version == fw.version) ds)
unfolding version_warnings
length-version_warnings fw [] = refl
length-version_warnings fw (d ∷ ds) = ground (arith, length-version_warnings fw ds)

-- There is one warning for each target that runs the chosen version already.
pub length-warnings :
    (draft : RolloutDraft) (targets : List Device) (fw : FirmwareVersion)
    → length (evaluate_rollout_plan draft targets (some fw)).warnings
      ≡ length (filter (λ d. d.current_version == fw.version) targets)
unfolding evaluate_rollout_plan
length-warnings draft targets fw = length-version_warnings fw targets

-- No plan is reported to mix hardware, whatever its targets and its firmware.
pub has_hardware_mismatch-eq-false :
    (draft : RolloutDraft) (targets : List Device) (fw : Option FirmwareVersion)
    → ((evaluate_rollout_plan draft targets fw).has_hardware_mismatch ≡ false)
      × ((evaluate_rollout_plan draft targets fw).mismatched_devices ≡ [])
unfolding evaluate_rollout_plan
has_hardware_mismatch-eq-false draft targets fw = (refl, refl)
