-- ===== src/Rollout/Progress.antt =====
-- The bar, the phases and the rows of the monitor. The percentage is a quotient of doubles that is
-- rounded: `round_percent c t` stands for `Math.round((c / t) * 100)`.
use ota_robot_system.Base.{
  ℕ, zero, suc, ◌≡◌, ◌≤◌, ◌<◌, ◌+◌, ◌*◌, String, Bool, true, ◌||◌, get_or, or_else, truthy, ltb,
  leb, nat_eq, if◌then◌else◌, concat, arith, Bool-cases, inl, inr,
}
use ota_robot_system.Types.{Deployment}
use ota_robot_system.Types.Units.{DeploymentDevice, UnitStatus}
use ota_robot_system.Rollout.{is_completed, completed_count}

-- The nearest whole number, either one where two are equally near.
abbrev pub IsNearest : (ℕ → ℕ → ℕ) → Type 0
IsNearest round_percent =
    (c t : ℕ)
    → 0 < t
    → (2 * t * round_percent c t ≤ 200 * c + t) × (200 * c ≤ 2 * t * round_percent c t + t)

-- `n || d` on numbers.
unfoldable pub or_number : ℕ → ℕ → ℕ
or_number zero d = d
or_number (suc n) d = suc n

unfoldable pub progress_percent : (ℕ → ℕ → ℕ) → Deployment → ℕ
progress_percent round_percent d =
    if ltb 0 d.total_devices then round_percent (completed_count d) d.total_devices else 0

unfoldable pub phase_label : (ℕ → String) → Deployment → String
unfolding or_number
phase_label decimal d =
    if is_completed d
    then "Phase 3 (100%)"
    else concat "Phase " (
        concat (decimal (or_number d.current_phase 1))
          (concat " (" (concat (decimal (or_number d.canary_percentage 20)) "%)")))

-- Whether the box of a phase is lit.
unfoldable pub phase_reached : ℕ → Deployment → Bool
unfolding or_number
phase_reached n d = is_completed d || leb n (or_number d.current_phase 1)

-- What a row says of its robot.
pub data RowNote : Type 0 where
  problem : String → RowNote
  verified transmitting : RowNote

settled_note : UnitStatus → RowNote
settled_note UnitStatus.success = verified
settled_note _ = transmitting

unfoldable pub row_note : DeploymentDevice → RowNote
unfolding settled_note
row_note d =
    if truthy (get_or d.error_message "")
    then problem (get_or d.error_message "")
    else settled_note d.status

unfoldable pub version_transition : String → DeploymentDevice → String
version_transition target_version d = concat "v" (
    concat (or_else (get_or d.previous_version "") "1.0.0")
      (concat " → v" (or_else target_version "Target")))

at_most : (t p : ℕ) → 0 < t → 2 * t * p ≤ 201 * t → p ≤ 100
at_most t p z h = grind arith

-- With no more reports than robots the bar shows at most 100.
pub progress_percent_bound :
    (round_percent : ℕ → ℕ → ℕ) (d : Deployment)
    → IsNearest round_percent
    → completed_count d ≤ d.total_devices
    → progress_percent round_percent d ≤ 100
unfolding progress_percent
progress_percent_bound r d h b = elim (Bool-cases (ltb 0 d.total_devices)) [
  | inl z ↦
      let k = h (completed_count d) d.total_devices (ground arith) in
      rw z (
        at_most d.total_devices (r (completed_count d) d.total_devices) (ground arith)
          (omega (arith, k.0)))
  | inr z ↦ rw z (omega arith)
]

-- In a rollout to fewer than 200 robots the bar shows 100 only if all of them have reported.
pub progress_percent_full :
    (round_percent : ℕ → ℕ → ℕ) (d : Deployment)
    → IsNearest round_percent
    → completed_count d ≤ d.total_devices
    → d.total_devices < 200
    → progress_percent round_percent d ≡ 100
    → completed_count d ≡ d.total_devices
unfolding progress_percent
progress_percent_full r d h b l e = elim (Bool-cases (ltb 0 d.total_devices)) [
  | inl z ↦
      let q : r (completed_count d) d.total_devices ≡ 100 = rw z at e in
      let k = (h (completed_count d) d.total_devices (ground arith)).0 in
      let n : 2 * d.total_devices * 100 ≤ 200 * completed_count d + d.total_devices = rw q at k in
      omega (arith, n)
  | inr z ↦ ground arith
]

one-le-or_number : (n : ℕ) → 1 ≤ or_number n 1
unfolding or_number
one-le-or_number zero = omega arith
one-le-or_number (suc n) = omega arith

-- The boxes are lit from the first one on: a phase that is reached has those before it reached, and
-- the first is always lit.
pub phase_reached-le :
    (m n : ℕ) (d : Deployment)
    → m ≤ n
    → (phase_reached n d ≡ true → phase_reached m d ≡ true) × (phase_reached 1 d ≡ true)
unfolding phase_reached
phase_reached-le m n d h = (λ e. ground arith, ground (arith, one-le-or_number d.current_phase))
