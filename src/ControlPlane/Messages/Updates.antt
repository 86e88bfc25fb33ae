-- ===== src/ControlPlane/Messages/Updates.antt =====
-- What an update of a robot makes of its rollout, by way of the messages.
use mathlib.Core.Bool.{true≢false}
use ota_robot_system.Base.{
  ℕ, ◌≡◌, ◌≢◌, refl, sym, ◌∙◌, ap, String, Bool, true, false, not, ◌&&◌, Option, none, some, List,
  [], ◌∷◌, ◌++◌, All, ◌==◌, string_eq, nat_eq, eq_iff, arith, ◌⊎◌, inl, inr,
}
use ota_robot_system.Types.{
  Deployment, DeploymentStatus, pending, running, completed, failed, rolled_back,
}
use ota_robot_system.Agent.{
  Robot, Update, Surroundings, Report, progress, error, Outcome, handle_update,
}
use ota_robot_system.Agent.StateMachine.{cmd_update, downloading, trigger}
use ota_robot_system.Agent.Image.{Accepted, Decides, is_success, succeeded}
use ota_robot_system.Agent.Safety.{handle_update-Decides}
use ota_robot_system.Agent.Told.{
  IsLast, success, failure, is_underway, handle_update-Told, succeeded-Told,
}
use ota_robot_system.ControlPlane.Store.{
  Store, UnitRow, get_deployment, with_status, is_running, get_active_deployment_device_by_device,
  update_deployment_device_status,
}
use ota_robot_system.ControlPlane.Store.Active.{active-update_deployment_device_status}
use ota_robot_system.ControlPlane.Manager.{is_over, handle_device_progress, handle_device_error}
use ota_robot_system.ControlPlane.Manager.Progress.{handle_device_progress-underway}
use ota_robot_system.ControlPlane.Manager.Reports.{
  after_error, one_failure, handle_device_error_lem, after_success, handle_device_progress_lem,
}
use ota_robot_system.ControlPlane.Messages.{handle_report, handle_reports}

abbrev is_open : UnitRow → Bool
is_open u = not (u.status == "success") && not (u.status == "failed")

module _ (reason device_id deployment_id : String) (d : Deployment)
    (runs : is_running d.status ≡ true) where
  -- The robot has a part that is not over in a rollout that runs.
  record Waits (s : Store) : Type 0 where
    unit : UnitRow
    active : get_active_deployment_device_by_device device_id s ≡ some unit
    of : unit.deployment_id ≡ deployment_id
    open_ : is_open unit ≡ true
    row : get_deployment deployment_id s ≡ some d

  written-Waits :
      (n : ℕ) (st : String) (s : Store)
      → is_underway (progress n st) ≡ true
      → (w : Waits s)
      → Waits (update_deployment_device_status w.unit.deployment_id device_id st n none s)
  unfolding update_deployment_device_status
  written-Waits n st s h w = record {
    unit = record w.unit { status = st; progress = n; error_message = none };
    active =
        active-update_deployment_device_status device_id st n none w.unit d s w.active
          (ap (λ i. get_deployment i s) w.of ∙ w.row) runs;
    of = w.of;
    open_ = h;
    row = w.row;
  }

  handle_report-Waits :
      (r : Report) (s : Store)
      → is_underway r ≡ true
      → Waits s
      → Waits (handle_report reason device_id r s)
  unfolding handle_report
  handle_report-Waits (error m) s h w = cc
  handle_report-Waits (progress n st) s h w =
      rw
        (
          handle_report,
          handle_device_progress-underway device_id st n w.unit s w.active (ground (arith, h)),
        )
        (written-Waits n st s h w)

  handle_reports-Waits :
      (rs : List Report) (s : Store)
      → All (λ r. is_underway r ≡ true) rs
      → Waits s
      → Waits (handle_reports reason device_id rs s)
  unfolding handle_reports
  handle_reports-Waits [] s h w = w
  handle_reports-Waits (r ∷ rs) s h w =
      handle_reports-Waits rs (handle_report reason device_id r s) h.1
        (handle_report-Waits r s h.0 w)

handle_reports-append :
    (reason device_id : String) (rs : List Report) (r : Report) (s : Store)
    → handle_reports reason device_id (rs ++ r ∷ []) s
      ≡ handle_report reason device_id r (handle_reports reason device_id rs s)
unfolding handle_reports
handle_reports-append reason id [] r s = refl
handle_reports-append reason id (q ∷ rs) r s =
    handle_reports-append reason id rs r (handle_report reason id q s)

not_over : (st : DeploymentStatus) → is_running st ≡ true → is_over st ≡ false
not_over running h = refl
not_over pending h = cc
not_over completed h = cc
not_over failed h = cc
not_over rolled_back h = cc

module _ (reason device_id deployment_id : String) (d : Deployment)
    (runs : is_running d.status ≡ true) where
  -- The last report of an update, at a robot that has a part in the rollout.
  last-success :
      (s : Store)
      → Waits reason device_id deployment_id d runs s
      → get_deployment deployment_id (handle_report reason device_id (progress 100 "success") s)
        ≡ some (after_success d)
  unfolding handle_report
  last-success s w =
      ap (λ i. get_deployment i (handle_device_progress device_id "success" 100 s).0) (sym w.of)
      ∙ handle_device_progress_lem device_id w.unit d s w.active
          (ap (λ i. get_deployment i s) w.of ∙ w.row) (not_over d.status runs)

  last-error :
      (message : String) (s : Store)
      → Waits reason device_id deployment_id d runs s
      → get_deployment deployment_id (handle_report reason device_id (error message) s)
        ≡ some (with_status (after_error d) (one_failure d))
  unfolding handle_report
  last-error message s w =
      ap (λ i. get_deployment i (handle_device_error reason device_id message s).0) (sym w.of)
      ∙ handle_device_error_lem reason device_id message w.unit d s w.active
          (λ e. ground (arith, w.open_, e, eq_iff w.unit.status "success"))
          (λ e. ground (arith, w.open_, e, eq_iff w.unit.status "failed"))
          (ap (λ i. get_deployment i s) w.of ∙ w.row)

  -- What the last report makes of the row.
  abbrev Ends : Report → Option Deployment → Type 0
  Ends q o =
      ((is_success q ≡ true) × (o ≡ some (after_success d)))
      ⊎ ((is_success q ≡ false) × (o ≡ some (with_status (after_error d) (one_failure d))))

  last-Ends :
      (q : Report) (s : Store)
      → IsLast q
      → Waits reason device_id deployment_id d runs s
      → Ends q (get_deployment deployment_id (handle_report reason device_id q s))
  last-Ends q s success w = inl (refl, last-success s w)
  last-Ends q s (failure m) w = inr (refl, last-error m s w)

  reports-Ends :
      (rs : List Report) (q : Report) (s : Store)
      → All (λ r. is_underway r ≡ true) rs
      → IsLast q
      → Waits reason device_id deployment_id d runs s
      → Ends q (get_deployment deployment_id (handle_reports reason device_id (rs ++ q ∷ []) s))
  reports-Ends rs q s h l w = rw (handle_reports-append reason device_id rs q s) (
      last-Ends q (handle_reports reason device_id rs s) l
        (handle_reports-Waits reason device_id deployment_id d runs rs s h w))

-- Both decisions agree: that of the agent, and that of the reports.
concluded {ℓ κ} :
    {C : Type ℓ} {P : Type κ} (v : Surroundings C) (cmd : Update) (version : String) (o : Outcome)
    (d : Deployment) (q : Report) {row final : Option Deployment}
    → Decides v cmd P version o
    → succeeded o.1 ≡ is_success q
    → row ≡ final
    → ((is_success q ≡ true) × (final ≡ some (after_success d)))
      ⊎ ((is_success q ≡ false) × (final ≡ some (with_status (after_error d) (one_failure d))))
    → (P × (o.0.current_version ≡ cmd.version) × (row ≡ some (after_success d)))
      ⊎ (¬ P
          × (o.0.current_version ≡ version)
          × (row ≡ some (with_status (after_error d) (one_failure d))))
concluded v cmd version o d q (inl (p, (ok, same))) e k (inl (y, f)) =
    inl (p, ap (λ r. r.current_version) same, k ∙ f)
concluded v cmd version o d q (inl (p, (ok, same))) e k (inr (n, f)) =
    absurd (true≢false (sym ok ∙ e ∙ n))
concluded v cmd version o d q (inr (np, (bad, kept, at))) e k (inl (y, f)) =
    absurd (true≢false (sym y ∙ sym e ∙ bad))
concluded v cmd version o d q (inr (np, (bad, kept, at))) e k (inr (n, f)) = inr (np, kept, k ∙ f)

-- A robot that takes a command for an update and has a part, neither successful nor failed, in a
-- rollout that runs, when its reports have arrived in their order: if the robot runs the new version
-- because every check of the command has passed, a success is counted for the rollout; and if it
-- keeps its version because one has not, a failure is counted and judged.
pub handle_reports-handle_update {ℓ} :
    {C : Type ℓ} (v : Surroundings C) (cmd : Update) (r : Robot) (reason device_id : String)
    (u : UnitRow) (d : Deployment) (s : Store)
    → trigger r.fsm cmd_update ≡ some downloading
    → get_active_deployment_device_by_device device_id s ≡ some u
    → u.status ≢ "success"
    → u.status ≢ "failed"
    → get_deployment u.deployment_id s ≡ some d
    → d.status ≡ running
    → let (robot, reports) = handle_update v cmd r in
      let row = get_deployment u.deployment_id (handle_reports reason device_id reports s) in
      (Accepted v cmd × (robot.current_version ≡ cmd.version) × (row ≡ some (after_success d)))
      ⊎ (¬ Accepted v cmd
          × (robot.current_version ≡ r.current_version)
          × (row ≡ some (with_status (after_error d) (one_failure d))))
handle_reports-handle_update v cmd r reason device_id u d s t a n m g run =
    let o = handle_update v cmd r in
    let h = handle_update-Told v cmd r in
    let runs : is_running d.status ≡ true = ap (λ st. is_running st) run in
    let here : is_open u ≡ true =
      ground (arith, n, m, eq_iff u.status "success", eq_iff u.status "failed") in
    let told =
      ap (λ rs. get_deployment u.deployment_id (handle_reports reason device_id rs s)) h.told in
    concluded v cmd r.current_version o d h.last (handle_update-Decides v cmd r t)
      (succeeded-Told o h) told
      (reports-Ends reason device_id u.deployment_id d runs h.before h.last s h.underway h.is_last
        (record { unit = u; active = a; of = refl; open_ = here; row = g }))
