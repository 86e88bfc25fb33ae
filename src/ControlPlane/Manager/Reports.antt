-- ===== src/ControlPlane/Manager/Reports.antt =====
-- What a report of a robot makes of the row of its rollout, on every branch.
use mathlib.Core.Path.{subst}
use ota_robot_system.Base.{
  ◌+◌, ◌*◌, ◌≡◌, ◌≢◌, refl, ◌∙◌, ap, String, true, false, ◌&&◌, ◌||◌, Option, none, some, ◌==◌,
  string_eq, nat_eq, arith, eq_iff, if◌then◌else◌, Bool-cases, inl, inr, leb,
}
use ota_robot_system.Types.{
  Deployment, DeploymentStatus, pending, running, completed, failed, rolled_back,
}
use ota_robot_system.ControlPlane.Store.{
  Store, UnitRow, get_deployment, find_deployment, change, with_status, with_phase,
  get_firmware_version, update_deployment_status, update_deployment_phase,
  increment_deployment_success, increment_deployment_failure, is_running,
  get_active_deployment_device_by_device, update_deployment_device_status,
}
use ota_robot_system.ControlPlane.Manager.{
  is_over, is_rolled_back, is_canary, set_version, complete, succeed, count_success, progress_of,
  handle_device_progress, execute_rollback, is_breached, judge, error_of, handle_device_error,
}
use ota_robot_system.ControlPlane.Manager.Rows.{
  id-find_deployment, find_deployment-change, set_version-deployments,
}
use ota_robot_system.ControlPlane.Manager.Decisions.{roll_back-row}

-- The row of a rollout after a failure was counted and judged.
abbrev judged : Deployment → DeploymentStatus
judged d =
    if is_running d.status && is_breached d
    then rolled_back
    else if leb d.total_devices (d.success_count + d.failure_count + 1)
    then completed
    else d.status

running_only : (st : DeploymentStatus) → is_running st ≡ true → is_rolled_back st ≡ false
running_only running h = refl
running_only pending h = cc
running_only completed h = cc
running_only failed h = cc
running_only rolled_back h = cc

judge-row :
    (reason : String) (d : Deployment) (s : Store)
    → get_deployment d.id s ≡ some d
    → get_deployment d.id (judge reason (some d) s).0 ≡ some (with_status (judged d) d)
unfolding judge execute_rollback update_deployment_status
judge-row reason d s g = elim (Bool-cases (is_running d.status && is_breached d)) [
  | inl e ↦ rw e (rw g (roll_back-row d reason s g (running_only d.status (ground (arith, e)))))
  | inr e ↦ rw e (elim (Bool-cases (leb d.total_devices (d.success_count + d.failure_count + 1))) [
    | inl k ↦
        rw k (find_deployment-change d.id (with_status completed) s.deployments d (λ c. refl) g)
    | inr k ↦ rw k g
  ])
]

abbrev pub one_failure : Deployment → Deployment
one_failure d = record d { failure_count = d.failure_count + 1 }

-- The status after an error.
abbrev pub after_error : Deployment → DeploymentStatus
after_error d =
    if is_running d.status
      && leb (d.rollback_threshold.num * d.total_devices)
          ((d.failure_count + 2) * d.rollback_threshold.den)
    then rolled_back
    else if leb d.total_devices (d.success_count + (d.failure_count + 2))
    then completed
    else d.status

judged-one_failure : (d : Deployment) → judged (one_failure d) ≡ after_error d
unfolding is_breached
judged-one_failure d =
    let e : d.failure_count + 1 + 1 ≡ d.failure_count + 2 = omega arith in
    let k : d.success_count + (d.failure_count + 1) + 1 ≡ d.success_count + (d.failure_count + 2) =
      omega arith in
    rw (e, k)

judge-found :
    (id reason : String) (o : Option Deployment) (d : Deployment) (t : Store)
    → d.id ≡ id
    → o ≡ some d
    → get_deployment id t ≡ some d
    → get_deployment id (judge reason o t).0 ≡ some (with_status (judged d) d)
judge-found id reason o d t e k =
    subst
      (λ i.
        get_deployment i t ≡ some d
        → get_deployment i (judge reason o t).0 ≡ some (with_status (judged d) d))
      e (λ g. rw k (judge-row reason d t g))

error_of-row :
    (u : UnitRow) (reason device_id message : String) (d : Deployment) (s : Store)
    → (u.status == "success" || u.status == "failed") ≡ false
    → get_deployment u.deployment_id s ≡ some d
    → get_deployment u.deployment_id (error_of (some u) reason device_id message s).0
      ≡ some (with_status (after_error d) (one_failure d))
unfolding error_of update_deployment_device_status increment_deployment_failure
error_of-row u reason device_id message d s n g =
    let id = u.deployment_id in
    let t =
      increment_deployment_failure id
        (update_deployment_device_status id device_id "failed" u.progress (some message) s) in
    let row : get_deployment id t ≡ some (one_failure d) =
      find_deployment-change id one_failure s.deployments d (λ c. refl) g in
    rw n (
      judge-found id reason (get_deployment id t) (one_failure d) t
        (id-find_deployment id s.deployments d g) row row
      ∙ ap (λ st. some (with_status st (one_failure d))) (judged-one_failure d))

-- The report of an error by a robot whose part has neither succeeded nor failed: the failure is
-- counted. A rollout that runs is then rolled back if its counted failures and one more reach the
-- threshold; else any rollout, a rolled back one too, becomes completed if its successes, its
-- counted failures and one more are as many as its targets; else the status stays.
pub handle_device_error_lem :
    (reason device_id message : String) (u : UnitRow) (d : Deployment) (s : Store)
    → get_active_deployment_device_by_device device_id s ≡ some u
    → u.status ≢ "success"
    → u.status ≢ "failed"
    → get_deployment u.deployment_id s ≡ some d
    → get_deployment u.deployment_id (handle_device_error reason device_id message s).0
      ≡ some (with_status (after_error d) (one_failure d))
unfolding handle_device_error
handle_device_error_lem reason device_id message u d s a n m g = rw a (
    error_of-row u reason device_id message d s
      (ground (arith, n, m, eq_iff u.status "success", eq_iff u.status "failed")) g)

-- The row after a success.
abbrev pub after_success : Deployment → Deployment
after_success d =
    let e = record d { success_count = d.success_count + 1 } in
    if leb d.total_devices (d.success_count + 1 + d.failure_count)
    then (if is_canary d.strategy
        then with_phase 3 100 (with_status completed e)
        else with_status completed e)
    else e

complete-row :
    (d e : Deployment) (s : Store)
    → d.strategy ≡ e.strategy
    → get_deployment d.id s ≡ some e
    → get_deployment d.id (complete d s)
      ≡ some (
          if is_canary d.strategy
          then with_phase 3 100 (with_status completed e)
          else with_status completed e)
unfolding complete update_deployment_status update_deployment_phase
complete-row d e s k g =
    let row = find_deployment-change d.id (with_status completed) s.deployments e (λ c. refl) g in
    elim (Bool-cases (is_canary d.strategy)) [
      | inl c ↦ rw c (
          find_deployment-change d.id (with_phase 3 100)
            (change d.id (with_status completed) s.deployments) (with_status completed e)
            (λ c. refl) row)
      | inr c ↦ rw c row
    ]

succeed-row :
    (device_id : String) (d : Deployment) (s : Store)
    → get_deployment d.id s ≡ some d
    → get_deployment d.id (succeed device_id d s) ≡ some (after_success d)
unfolding succeed increment_deployment_success
succeed-row device_id d s g =
    let u = increment_deployment_success d.id s in
    let fw = get_firmware_version d.firmware_version_id s in
    let t = set_version device_id fw u in
    let e = record d { success_count = d.success_count + 1 } in
    let row : get_deployment d.id t ≡ some e =
      ap (find_deployment d.id) (set_version-deployments device_id fw u)
      ∙ find_deployment-change d.id (λ c. record c { success_count = c.success_count + 1 })
          s.deployments d (λ c. refl) g in
    elim (Bool-cases (leb d.total_devices (d.success_count + 1 + d.failure_count))) [
      | inl c ↦ rw c (complete-row d e t refl row)
      | inr c ↦ rw c row
    ]

succeed-found :
    (id device_id : String) (o : Option Deployment) (d : Deployment) (t : Store)
    → d.id ≡ id
    → o ≡ some d
    → is_over d.status ≡ false
    → get_deployment id t ≡ some d
    → get_deployment id (count_success device_id o t).0 ≡ some (after_success d)
unfolding count_success
succeed-found id device_id o d t e k n =
    subst
      (λ i.
        get_deployment i t ≡ some d
        → get_deployment i (count_success device_id o t).0 ≡ some (after_success d))
      e (λ g. rw (k, n) (succeed-row device_id d t g))

-- The report of a success by a robot that has a part in a rollout which is neither rolled back nor
-- failed, whatever its part says already: the success is counted. Then the rollout becomes
-- completed if its successes and failures are as many as its targets, and a canary is shown in its
-- last phase.
pub handle_device_progress_lem :
    (device_id : String) (u : UnitRow) (d : Deployment) (s : Store)
    → get_active_deployment_device_by_device device_id s ≡ some u
    → get_deployment u.deployment_id s ≡ some d
    → is_over d.status ≡ false
    → get_deployment u.deployment_id (handle_device_progress device_id "success" 100 s).0
      ≡ some (after_success d)
unfolding handle_device_progress progress_of update_deployment_device_status
handle_device_progress_lem device_id u d s a g n =
    let t = update_deployment_device_status u.deployment_id device_id "success" 100 none s in
    rw a (
      succeed-found u.deployment_id device_id (get_deployment u.deployment_id t) d t
        (id-find_deployment u.deployment_id s.deployments d g) g n g)
