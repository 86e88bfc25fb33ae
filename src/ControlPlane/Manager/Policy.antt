-- ===== src/ControlPlane/Manager/Policy.antt =====
-- The report of an error measured against the policy that is documented for rollouts: failures are
-- compared as they are, from the threshold on (docs/operations/SETUP_LOCAL.md) or above it (the launch
-- page and its dialog).
use mathlib.Core.Path.{subst}
use ota_robot_system.Base.{
  ℕ, ◌+◌, ◌*◌, ◌≤◌, ◌≡◌, ◌≢◌, refl, sym, ◌∙◌, ap, String, true, false, ◌&&◌, some, leb, nat_eq,
  arith, Bool-cases, inl, inr, if◌then◌else◌,
}
use ota_robot_system.Types.{
  Deployment, DeploymentStatus, pending, running, completed, failed, rolled_back,
}
use ota_robot_system.ControlPlane.Store.{
  Store, UnitRow, get_deployment, is_running, get_active_deployment_device_by_device,
}
use ota_robot_system.ControlPlane.Manager.{handle_device_error}
use ota_robot_system.ControlPlane.Manager.Reports.{after_error, handle_device_error_lem}

-- So many failures are the threshold's share of the targets, or more.
abbrev pub Reaches : Deployment → ℕ → Type 0
Reaches d failures =
    d.rollback_threshold.num * d.total_devices ≤ failures * d.rollback_threshold.den

-- So many failures and the successes are all targets.
abbrev pub AllCounted : Deployment → ℕ → Type 0
AllCounted d failures = d.total_devices ≤ d.success_count + failures

-- What becomes of a rollout with so many failures. The failures decide in two of the cases, and in
-- the two that are premature one more than there are.
pub data Judged (d : Deployment) (failures : ℕ) : DeploymentStatus → Type 0 where
  breached : d.status ≡ running → Reaches d failures → Judged d failures rolled_back
  premature_breach :
      d.status ≡ running
      → ¬ Reaches d failures
      → Reaches d (failures + 1)
      → Judged d failures rolled_back
  done :
      ¬ ((d.status ≡ running) × Reaches d (failures + 1))
      → AllCounted d failures
      → Judged d failures completed
  premature_end :
      ¬ ((d.status ≡ running) × Reaches d (failures + 1))
      → ¬ AllCounted d failures
      → AllCounted d (failures + 1)
      → Judged d failures completed
  unchanged :
      ¬ ((d.status ≡ running) × Reaches d (failures + 1))
      → ¬ AllCounted d (failures + 1)
      → Judged d failures d.status

leb-le : (a b : ℕ) → leb a b ≡ true → a ≤ b
leb-le a b h = ground (arith, h)

leb-not_le : (a b : ℕ) → leb a b ≡ false → ¬ (a ≤ b)
leb-not_le a b h k = ground (arith, h, k)

is_running-eq : (st : DeploymentStatus) → is_running st ≡ true → st ≡ running
is_running-eq running h = refl
is_running-eq pending h = cc
is_running-eq completed h = cc
is_running-eq failed h = cc
is_running-eq rolled_back h = cc

-- The code's choice, by the number that it compares.
abbrev chosen : Deployment → ℕ → DeploymentStatus
chosen d n =
    if is_running d.status
      && leb (d.rollback_threshold.num * d.total_devices) (n * d.rollback_threshold.den)
    then rolled_back
    else if leb d.total_devices (d.success_count + n)
    then completed
    else d.status

module _ (d : Deployment) (n : ℕ) where
  abbrev share : ℕ
  share = d.rollback_threshold.num * d.total_devices

  ended-Judged :
      ¬ ((d.status ≡ running) × Reaches d (n + 1))
      → Judged d n (if leb d.total_devices (d.success_count + (n + 1)) then completed else d.status)
  ended-Judged no_breach = elim (Bool-cases (leb d.total_devices (d.success_count + (n + 1)))) [
    | inr e ↦ rw e (unchanged no_breach (leb-not_le _ _ e))
    | inl e ↦ elim (Bool-cases (leb d.total_devices (d.success_count + n))) [
      | inl k ↦ rw e (done no_breach (leb-le _ _ k))
      | inr k ↦ rw e (premature_end no_breach (leb-not_le _ _ k) (leb-le _ _ e))
    ]
  ]

  chosen-Judged : Judged d n (chosen d (n + 1))
  chosen-Judged = elim (Bool-cases (is_running d.status)) [
    | inr r ↦ rw r (ended-Judged (λ h. let e : true ≡ false = ap is_running (sym h.0) ∙ r in cc))
    | inl r ↦ elim (Bool-cases (leb share ((n + 1) * d.rollback_threshold.den))) [
      | inr b ↦ rw (r, b) (ended-Judged (λ h. leb-not_le _ _ b h.1))
      | inl b ↦ elim (Bool-cases (leb share (n * d.rollback_threshold.den))) [
        | inl k ↦ rw (r, b) (breached (is_running-eq d.status r) (leb-le _ _ k))
        | inr k ↦
            rw (r, b)
              (premature_breach (is_running-eq d.status r) (leb-not_le _ _ k) (leb-le _ _ b))
      ]
    ]
  ]

after_error-Judged : (d : Deployment) → Judged d (d.failure_count + 1) (after_error d)
after_error-Judged d =
    let e : d.failure_count + 1 + 1 ≡ d.failure_count + 2 = omega arith in
    subst (λ n. Judged d (d.failure_count + 1) (chosen d n)) e
      (chosen-Judged d (d.failure_count + 1))

-- The report of an error by a robot whose part has neither succeeded nor failed: the failure is
-- counted, and with the failures that are counted then, the rollout if it runs is rolled back when
-- these, or one more than these, are the threshold's share of the targets or more; else any rollout,
-- a rolled back one too, becomes completed when these, or one more than these, and the successes are
-- all targets; else the status stays.
pub handle_device_error-Judged :
    (reason device_id message : String) (u : UnitRow) (d : Deployment) (s : Store)
    → get_active_deployment_device_by_device device_id s ≡ some u
    → u.status ≢ "success"
    → u.status ≢ "failed"
    → get_deployment u.deployment_id s ≡ some d
    → (st : DeploymentStatus) × Judged d (d.failure_count + 1) st
      × (get_deployment u.deployment_id (handle_device_error reason device_id message s).0
          ≡ some (record d { status = st; failure_count = d.failure_count + 1 }))
handle_device_error-Judged reason device_id message u d s a n m g = (
  after_error d,
  after_error-Judged d,
  handle_device_error_lem reason device_id message u d s a n m g,
)
