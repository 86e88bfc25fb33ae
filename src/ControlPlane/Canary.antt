-- ===== src/ControlPlane/Canary.antt =====
-- The start of a rollout and its phases (`StartRollout`, `runCanary`, `observeWindow` and
-- `clampPhaseEnd` of backend/internal/rollout/manager.go). A canary rollout is a goroutine, which
-- stands between two of its accesses to the tables or the dispatcher. Reports and requests are
-- handled in between, each at one go. Products of counts with 0.20 and 0.60 round up like the exact fractions.
pub mod Phases
pub mod Steps
pub mod Stages
pub mod Sent
pub mod Halt
pub mod Window
pub mod Ends
pub mod Kept
use ota_robot_system.Base.{
  ℕ, suc, ◌+◌, ◌-◌, ◌*◌, ◌/◌, String, Bool, true, false, not, ◌&&◌, ◌||◌, Option, none, some, List,
  [], ◌∷◌, ◌++◌, take, drop, length, ltb, leb, ◌==◌, nat_eq, if◌then◌else◌,
}
use ota_robot_system.Types.{Device, Strategy, full, canary, Fraction, Deployment}
use ota_robot_system.ControlPlane.Store.{
  Store, Command, publish_command, get_deployment, update_deployment_phase, runs,
}
use ota_robot_system.ControlPlane.Manager.{
  is_over, handle_device_progress, handle_device_error, execute_rollback, reconcile,
}

abbrev at_least_one : ℕ → ℕ
at_least_one end = if ltb end 1 then 1 else end

abbrev at_most : ℕ → ℕ → ℕ
at_most n end = if ltb n end then n else end

unfoldable pub clamp_phase_end : ℕ → Fraction → ℕ
clamp_phase_end n fraction =
    at_most n (at_least_one ((n * fraction.num + (fraction.den - 1)) / fraction.den))

unfoldable pub p1_end : ℕ → ℕ
unfolding clamp_phase_end
p1_end n = clamp_phase_end n (record { num = 1; den = 5 })

unfoldable pub p2_end : ℕ → ℕ
unfolding clamp_phase_end p1_end
p2_end n =
    let p2 = clamp_phase_end n (record { num = 3; den = 5 }) in
    if leb p2 (p1_end n) && ltb (p1_end n) n then p1_end n + 1 else p2

pub record Phase : Type 0 where
  pub phase_num : ℕ
  pub percentage : ℕ
  pub devices : List Device

abbrev pub phase1 : List Device → Phase
phase1 ds = record { phase_num = 1; percentage = 20; devices = take (p1_end (length ds)) ds }

abbrev pub phase2 : List Device → Phase
phase2 ds = record {
  phase_num = 2;
  percentage = 60;
  devices = take (p2_end (length ds) - p1_end (length ds)) (drop (p1_end (length ds)) ds);
}

abbrev pub phase3 : List Device → Phase
phase3 ds = record { phase_num = 3; percentage = 100; devices = drop (p2_end (length ds)) ds }

abbrev pub phases : List Device → List Phase
phases ds = phase1 ds ∷ phase2 ds ∷ phase3 ds ∷ []

-- Of `n` robots.
unfoldable pub is_last_phase : ℕ → ℕ → Bool
is_last_phase n num = num == 3 || p2_end n == n && num == 2

pub data Stage : Type 0 where
  -- at the head of the loop, with the phases to come
  heads : List Phase → Stage
  -- allowed to start a phase, which is not recorded yet
  enters : Phase → List Phase → Stage
  -- in a phase, with the robots that have no command yet, and the phases to come
  publishes : ℕ → List Device → List Phase → Stage
  -- in the window after a phase
  observes : List Phase → Stage
  -- behind the loop; allowed to record the end; returned from there; returned before
  finishes closes finished halted : Stage

pub record System : Type 0 where
  pub store : Store
  pub deployment_id : String
  pub total : ℕ
  pub command : Command
  pub stage : Stage

-- What `StartRollout` leaves: an error, a finished dispatch, or the goroutine of a canary.
pub data Started : Type 0 where
  refused : String → Started
  direct : Store → Started
  background : System → Started

publish_all : List Device → Command → Store → Store
publish_all [] cmd s = s
publish_all (d ∷ ds) cmd s = publish_all ds cmd (publish_command d.id cmd s)

abbrev pub run_canary : String → List Device → Command → Store → System
run_canary id ds cmd s = record {
  store = s;
  deployment_id = id;
  total = length ds;
  command = cmd;
  stage = heads (phases ds);
}

unfoldable pub start : String → Strategy → List Device → Command → Store → Started
unfolding publish_all
start id canary ds cmd s = background (run_canary id ds cmd s)
start id full ds cmd s = direct (update_deployment_phase id 3 100 (publish_all ds cmd s))

unfoldable pub start_rollout : String → Strategy → List Device → Command → Store → Started
unfolding start
start_rollout id strategy [] cmd s = refused "cannot start rollout with zero target devices"
start_rollout id strategy (d ∷ ds) cmd s = start id strategy (d ∷ ds) cmd s

to_stage : Stage → System → System
to_stage st s = record s { stage = st }

abbrev deployment : System → Option Deployment
deployment s = get_deployment s.deployment_id s.store

-- The phase is recorded, and its robots are next.
enter : Phase → List Phase → System → System
enter p ps s = record s {
  store = update_deployment_phase s.deployment_id p.phase_num p.percentage s.store;
  stage = publishes p.phase_num p.devices ps;
}

at_head : Phase → List Device → List Phase → System → System
unfolding to_stage
at_head p [] ps s = to_stage (heads ps) s
at_head p (d ∷ ds) ps s =
    if runs (deployment s) then to_stage (enters p ps) s else to_stage halted s

finish : Option Deployment → System → System
unfolding to_stage
finish none s = to_stage finished s
finish (some dep) s = if is_over dep.status then to_stage finished s else to_stage closes s

-- The end is recorded.
close : System → System
close s = record s {
  store = update_deployment_phase s.deployment_id 3 100 s.store;
  stage = finished;
}

-- One step of the goroutine. In the window it is a tick of the poll, which is late if the deadline
-- has passed.
move : Bool → Stage → System → System
unfolding to_stage at_head enter finish close
move late (heads []) s = to_stage finishes s
move late (heads (p ∷ ps)) s = at_head p p.devices ps s
move late (enters p ps) s = enter p ps s
move late (publishes num [] ps) s =
    if is_last_phase s.total num then to_stage finishes s else to_stage (observes ps) s
move late (publishes num (d ∷ ds) ps) s = record s {
  store = publish_command d.id s.command s.store;
  stage = publishes num ds ps;
}
move late (observes ps) s =
    if late then to_stage (heads ps) s else if runs (deployment s) then s else to_stage halted s
move late finishes s = finish (deployment s) s
move late closes s = close s
move late finished s = s
move late halted s = s

pub data Event : Type 0 where
  goes : Bool → Event
  -- a robot's report of its status and progress, or of an error
  progresses : String → String → ℕ → Event
  fails : (reason device_id message : String) → Event
  rolls_back : (id reason : String) → Event
  reconciles : String → Event

pub handled : Event → Store → Store
handled (goes late) s = s
handled (progresses device_id status progress) s =
    (handle_device_progress device_id status progress s).0
handled (fails reason device_id message) s = (handle_device_error reason device_id message s).0
handled (rolls_back id reason) s = (execute_rollback id reason s).0
handled (reconciles id) s = (reconcile id s).0

unfoldable pub step : System → Event → System
unfolding move handled
step s (goes late) = move late s.stage s
step s (progresses device_id status progress) = record s {
  store = handled (progresses device_id status progress) s.store;
}
step s (fails reason device_id message) = record s {
  store = handled (fails reason device_id message) s.store;
}
step s (rolls_back id reason) = record s { store = handled (rolls_back id reason) s.store }
step s (reconciles id) = record s { store = handled (reconciles id) s.store }

unfoldable pub steps : System → List Event → System
unfolding step
steps s [] = s
steps s (e ∷ es) = steps (step s e) es
