-- ===== src/RobotDetail/Interlock.antt =====
-- When a rollout to one robot may be launched from its dialog, and that all parts of the dialog
-- say the same.
use mathlib.Core.Bool.{false≢true}
use ota_robot_system.Base.{
  ℕ, ◌≤◌, pos, negsuc, leb→le, ◌≡◌, ◌≢◌, ◌↔◌, ◌⊎◌, inl, inr, refl, true, false, not, Option, none,
  some, arith, eq_iff, string_eq, Bool-cases, ◌&&◌,
}
use ota_robot_system.Types.{Device, online, updating, is_online}
use ota_robot_system.Types.Telemetry.{DeviceTelemetry, Reading, number, not_number}
use ota_robot_system.RobotDetail.{
  field, reading, is_agv, activity, battery_level, charged, is_busy, battery_ok, can_deploy,
}
use ota_robot_system.RobotDetail.View.{
  workload_label, gate_label, explanation, launch, locked, footer, offers_removal,
}

-- A battery that reports at least 50.
abbrev pub Charged : Option DeviceTelemetry → Type 0
Charged t = (n : ℕ) × (field (λ u. u.battery_level) t ≡ some (number (pos n))) × (50 ≤ n)

charged-reading :
    (r : Option Reading)
    → (charged (reading r) ≡ true) ↔ ((n : ℕ) × (r ≡ some (number (pos n))) × (50 ≤ n))
unfolding charged reading
charged-reading none = (λ h. cc, λ h. cc (h.1))
charged-reading (some not_number) = (λ h. cc, λ h. cc (h.1))
charged-reading (some (number (negsuc n))) = (λ h. cc, λ h. cc (h.1))
charged-reading (some (number (pos n))) =
    (λ h. (n, refl, leb→le 50 n h), λ (m, e, b). ground (arith, e, b))

module _ (d : Device) (t : Option DeviceTelemetry) where
  charged_iff : is_online d ≡ true → (charged (battery_level d t) ≡ true) ↔ Charged t
  unfolding charged battery_level
  charged_iff o = rw o (charged-reading (field (λ u. u.battery_level) t))

  can_deploy-eq : can_deploy d t ≡ (is_online d && not (is_busy d t) && battery_ok d t)
  unfolding can_deploy
  can_deploy-eq = ground arith

  is_busy-offline : is_online d ≡ false → is_busy d t ≡ false
  unfolding is_busy
  is_busy-offline o = rw o

  battery_ok_iff : is_online d ≡ true → (battery_ok d t ≡ true) ↔ (is_agv d ≡ true → Charged t)
  unfolding battery_ok
  battery_ok_iff o = elim (Bool-cases (is_agv d)) [
    | inl a ↦ rw a (λ h g. (charged_iff o).0 h, λ f. (charged_iff o).1 (f refl))
    | inr a ↦ rw a (λ h g. absurd (false≢true g), λ f. refl)
  ]

  -- The launch is offered exactly when the robot is online, its activity is neither
  -- "running_program" nor "operating", and, if it is an AGV, its telemetry has a battery level
  -- that is a number of at least 50.
  pub can_deploy_iff : (can_deploy d t ≡ true) ↔ (
      (d.status ≡ online)
      × (activity d t ≢ "running_program")
      × (activity d t ≢ "operating")
      × (is_agv d ≡ true → Charged t))
  unfolding is_busy
  can_deploy_iff = (
    λ h.
        let c : (is_online d && not (is_busy d t) && battery_ok d t) ≡ true =
          rw can_deploy-eq at h in
        let o : is_online d ≡ true = ground arith in
        (
          ground arith,
          λ e. ground (arith, eq_iff (activity d t) "running_program"),
          λ e. ground (arith, eq_iff (activity d t) "operating"),
          (battery_ok_iff o).0 (ground arith),
        ),
    λ (o, r, p, b).
        let i : is_online d ≡ true = ground (arith, o) in
        rw can_deploy-eq (
          ground (
            arith,
            i,
            r,
            p,
            (battery_ok_iff i).1 b,
            eq_iff (activity d t) "running_program",
            eq_iff (activity d t) "operating",
          )),
  )

  -- The gate, the explanation and the footer agree: they are cleared together exactly when the
  -- launch is offered, and otherwise name the same one reason, the connection before the program
  -- and the program before the battery.
  pub gate_lem :
      ((can_deploy d t ≡ true)
        × (gate_label d t ≡ "Cleared (Safe to Upgrade)")
        × (explanation d t ≡ "OTA Pre-flight Cleared")
        × (footer d t ≡ launch))
      ⊎ ((can_deploy d t ≡ false)
          × (is_online d ≡ false)
          × (gate_label d t ≡ "Blocked (Offline)")
          × (explanation d t ≡ "OTA Unreachable")
          × (footer d t ≡ locked "OTA Blocked (Offline)"))
      ⊎ ((can_deploy d t ≡ false)
          × (is_busy d t ≡ true)
          × (gate_label d t ≡ "Locked (Program Running)")
          × (explanation d t ≡ "Safety Interlock Engaged")
          × (footer d t ≡ locked "OTA Locked (Robot Busy)"))
      ⊎ ((can_deploy d t ≡ false)
          × (battery_ok d t ≡ false)
          × (gate_label d t ≡ "Locked (Low Battery)")
          × (explanation d t ≡ "OTA Safety Gate")
          × (footer d t ≡ locked "OTA Blocked (Battery < 50%)"))
  unfolding gate_label explanation footer
  gate_lem = elim (Bool-cases (is_online d)) [
    | inr o ↦ rw (can_deploy-eq, is_busy-offline o, o) (inr (inl (refl, refl, refl, refl, refl)))
    | inl o ↦ elim (Bool-cases (is_busy d t)) [
      | inl b ↦ rw (can_deploy-eq, o, b) (inr (inr (inl (refl, refl, refl, refl, refl))))
      | inr b ↦ elim (Bool-cases (battery_ok d t)) [
        | inl c ↦ rw (can_deploy-eq, o, b, c) (inl (refl, refl, refl, refl))
        | inr c ↦ rw (can_deploy-eq, o, b, c) (inr (inr (inr (refl, refl, refl, refl, refl))))
      ]
    ]
  ]

  -- A robot that is being updated is shown as offline, and its removal is offered.
  pub updating-offers_removal :
      d.status ≡ updating
      → (workload_label d t ≡ "OFFLINE")
        × (gate_label d t ≡ "Blocked (Offline)")
        × (offers_removal d t ≡ true)
  unfolding workload_label gate_label offers_removal
  updating-offers_removal h = ground arith
