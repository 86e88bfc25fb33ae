-- ===== src/Rollout/Examples.antt =====
-- The monitor at work, and the theorems about it at concrete inputs.
use ota_robot_system.Base.{
  ℕ, ◌≡◌, ◌+◌, ◌*◌, ◌/◌, refl, String, true, false, none, some, List, [], ◌∷◌, any, concat, toast,
  success, ◌==◌, nat_eq, if◌then◌else◌, arith,
}
use ota_robot_system.Types.{Deployment, DeploymentStatus, canary, running, completed}
use ota_robot_system.Types.Telemetry.{other_value}
use ota_robot_system.Types.Reply.{Reply, resolved, rejected}
use ota_robot_system.Rollout.{Monitor, Answer, initial, load_settle, notice, is_finished}
use ota_robot_system.Rollout.Notice.{shows_finished, notice-completed}
use ota_robot_system.Rollout.Progress.{IsNearest, phase_reached, phase_reached-le}
use ota_robot_system.Rollout.Rollback.{banner_heading}
use ota_robot_system.Types.{rolled_back}
use ota_robot_system.Rollout.Emergency.{
  Watch, begin, Event, polled, opens, checks, confirms, cancels, replies, reloaded, show,
}
use ota_robot_system.Rollout.Emergency as Emergency
use ota_robot_system.Rollout.Emergency.Once.{IsSingle, steps-begin-IsSingle}
use ota_robot_system.Rollout.Emergency.Final.{steps-rolled_back}
use ota_robot_system.Rollout.View.{connecting, stage, phases}
use ota_robot_system.Rollout.Progress.{phase_label}

-- A rollout to four robots.
abbrev rollout : DeploymentStatus → ℕ → ℕ → Deployment
rollout status good bad = record {
  id = "d-1";
  firmware_version = some "1.1.0";
  strategy = canary;
  status = status;
  canary_percentage = 20;
  current_phase = 2;
  total_devices = 4;
  success_count = good;
  failure_count = bad;
  firmware_version_id = "fw-1";
  created_by = "ana";
  created_at = "2025-01-01T00:00:00Z";
  started_at = none;
  completed_at = none;
  rollback_threshold = record { num = 20; den = 100 };
}

abbrev answer : DeploymentStatus → ℕ → ℕ → Answer
answer status good bad = record {
  deployment = rollout status good bad;
  devices = none;
  target_version = some "1.1.0";
}

-- Numbers are written for the rollouts below only.
abbrev decimal : ℕ → String
decimal n = if n == 4 then "4" else "1"

abbrev history : List (Reply Answer)
history =
    resolved (answer running 1 0)
    ∷ rejected other_value
    ∷ resolved (answer running 3 1)
    ∷ resolved (answer completed 3 1)
    ∷ []

-- The notice of the history above is there.
any-history : any shows_finished history ≡ true
unfolding is_finished
any-history = refl

notice-completed_example :
    notice decimal (rollout completed 3 1)
    ≡ toast "Rollout Completed Successfully"
        (concat "All " (concat (decimal 4) " robot units have finished firmware upgrade (100%)"))
        success
        6000
notice-completed_example = notice-completed decimal (rollout completed 3 1) refl

-- Halves are rounded up.
abbrev half_up : ℕ → ℕ → ℕ
half_up c t = (200 * c + t) / (2 * t)

half_up-IsNearest : IsNearest half_up
half_up-IsNearest c t h = (grind arith, grind arith)

phase_reached-le_example :
    (phase_reached 2 (rollout running 1 0) ≡ true → phase_reached 1 (rollout running 1 0) ≡ true)
    × (phase_reached 1 (rollout running 1 0) ≡ true)
phase_reached-le_example = phase_reached-le 1 2 (rollout running 1 0) (omega arith)

abbrev watched : Monitor
watched = load_settle (resolved (answer running 1 0)) initial

banner_heading-manual :
    banner_heading (rollout running 4 0) ≡ "Manual Emergency Rollback Dispatched"
unfolding banner_heading
banner_heading-manual = refl

-- A rollback that is confirmed twice, with a poll in between.
abbrev aborting : List Event
aborting =
    opens
    ∷ checks true
    ∷ confirms
    ∷ polled (resolved (answer running 2 0))
    ∷ confirms
    ∷ replies (resolved tt)
    ∷ reloaded (resolved (answer rolled_back 2 0))
    ∷ []

requested-aborting : (Emergency.steps (begin watched) aborting).requested ≡ 1
unfolding Emergency.steps load_settle is_finished
requested-aborting = refl

idle-watched : watched.is_rolling_back ≡ false
unfolding load_settle
idle-watched = refl

steps-begin-IsSingle_example : IsSingle (Emergency.steps (begin watched) aborting)
steps-begin-IsSingle_example = steps-begin-IsSingle watched aborting idle-watched

-- The same rollout after its rollback, and a poll that fails.
abbrev over : Watch
over = begin (load_settle (resolved (answer rolled_back 2 0)) initial)

steps-rolled_back_example :
    (Emergency.steps over
      (polled (rejected other_value) ∷ opens ∷ checks true ∷ confirms ∷ [])).requested
    ≡ 0
unfolding load_settle
steps-rolled_back_example =
    steps-rolled_back over (rollout rolled_back 2 0)
      (polled (rejected other_value) ∷ opens ∷ checks true ∷ confirms ∷ []) refl refl refl
      (tt, (tt, (tt, (tt, tt))))

stage-initial : stage initial ≡ connecting
unfolding stage
stage-initial = refl

-- The second of three phases.
phases-running :
    phases decimal (rollout running 1 0)
    ≡ some (record {
      text = phase_label decimal (rollout running 1 0);
      first = true;
      second = true;
      third = false;
    })
unfolding phases phase_reached
phases-running = refl
