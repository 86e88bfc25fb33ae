-- ===== src/ControlPlane/Canary/Halt.antt =====
-- A canary rollout that is stopped starts no other phase.
use ota_robot_system.Base.{
  ℕ, ◌≡◌, refl, ◌∙◌, ap, String, Bool, true, false, Option, none, some, List, [], ◌∷◌, ◌++◌, inl,
  inr, if◌then◌else◌,
}
use ota_robot_system.Types.{Device, Deployment, DeploymentStatus}
use ota_robot_system.ControlPlane.Store.{
  publish_command, get_deployment, update_deployment_phase, runs, is_running,
}
use ota_robot_system.ControlPlane.Manager.{is_over}
use ota_robot_system.ControlPlane.Manager.Follows.{
  updates, GrowsOption, Moves, update_deployment_phase-Follows,
}
use ota_robot_system.ControlPlane.Canary.{
  Phase, is_last_phase, Stage, heads, enters, publishes, observes, finishes, closes, finished,
  halted, System, to_stage, enter, at_head, finish, close, move, Event, goes, progresses, fails,
  rolls_back, reconciles, handled, step, steps,
}
use ota_robot_system.ControlPlane.Canary.Steps.{
  ids, IsUpdate, handled-Follows, updates-publish_command, move_one, step-Keeps,
}

-- The robots of the phase that is under way.
abbrev pub in_flight : Stage → List Device
in_flight (heads ps) = []
in_flight (enters p ps) = p.devices
in_flight (publishes num ds ps) = ds
in_flight (observes ps) = []
in_flight finishes = []
in_flight closes = []
in_flight finished = []
in_flight halted = []

Moves-stopped : (a b : DeploymentStatus) → Moves a b → is_running a ≡ false → is_running b ≡ false
Moves-stopped a b (inl e) h = rw e h
Moves-stopped a b (inr (inl e)) h = rw e refl
Moves-stopped a b (inr (inr e)) h = rw e refl

stopped : (o p : Option Deployment) → GrowsOption o p → runs o ≡ false → runs p ≡ false
unfolding runs
stopped none none g h = refl
stopped none (some e) g h = absurd g
stopped (some d) none g h = absurd g
stopped (some d) (some e) g h = Moves-stopped d.status e.status g.moves h

abbrev pub IsStopped : System → Type 0
IsStopped s = runs (get_deployment s.deployment_id s.store) ≡ false

module _ (goal : List String) where
  -- It is stopped, and what was sent with what is under way is the goal.
  abbrev Good : System → Type 0
  Good s = IsStopped s × (updates s.store.commands ++ ids (in_flight s.stage) ≡ goal)

  either : (b : Bool) (x y : System) → Good x → Good y → Good (if b then x else y)
  either true x y g k = g
  either false x y g k = k

  -- A record of a phase keeps it stopped.
  phase-Good :
      (n percentage : ℕ) (st : Stage) (s : System)
      → IsStopped s
      → updates s.store.commands ++ ids (in_flight st) ≡ goal
      → Good (record s {
        store = update_deployment_phase s.deployment_id n percentage s.store;
        stage = st;
      })
  phase-Good n percentage st s r h =
      let f = update_deployment_phase-Follows s.deployment_id n percentage s.store in
      (
        stopped (get_deployment s.deployment_id s.store)
            (get_deployment s.deployment_id
              (update_deployment_phase s.deployment_id n percentage s.store))
            (f.grows s.deployment_id) r,
        ap (◌++ ids (in_flight st)) f.sent ∙ h,
      )

  finish-Good :
      (o : Option Deployment) (s : System)
      → IsStopped s
      → updates s.store.commands ++ [] ≡ goal
      → Good (finish o s)
  unfolding finish to_stage
  finish-Good none s r h = (r, h)
  finish-Good (some dep) s r h = either (is_over dep.status) _ _ (r, h) (r, h)

  -- At the head of the loop it finds itself stopped.
  at_head-Good :
      (p : Phase) (ds : List Device) (ps : List Phase) (s : System)
      → IsStopped s
      → updates s.store.commands ++ [] ≡ goal
      → Good (at_head p ds ps s)
  unfolding at_head to_stage
  at_head-Good p [] ps s r h = (r, h)
  at_head-Good p (d ∷ ds) ps s r h = rw r (r, h)

  move-Good :
      (late : Bool) (st : Stage) (s : System)
      → IsUpdate s.command
      → IsStopped s
      → updates s.store.commands ++ ids (in_flight st) ≡ goal
      → st ≡ s.stage
      → Good (move late st s)
  unfolding move to_stage enter close publish_command
  move-Good late (heads []) s c r h e = (r, h)
  move-Good late (heads (p ∷ ps)) s c r h e = at_head-Good p p.devices ps s r h
  move-Good late (enters p ps) s c r h e =
      phase-Good p.phase_num p.percentage (publishes p.phase_num p.devices ps) s r h
  move-Good late (publishes num [] ps) s c r h e =
      either (is_last_phase s.total num) _ _ (r, h) (r, h)
  move-Good late (publishes num (d ∷ ds) ps) s c r h e = (
    r,
    ap (◌++ ids ds) (updates-publish_command d.id s.command s.store c)
        ∙ move_one (updates s.store.commands) goal (ids ds) d.id h,
  )
  move-Good true (observes ps) s c r h e = (r, h)
  move-Good false (observes ps) s c r h e =
      either (runs (get_deployment s.deployment_id s.store)) _ _ (r, rw (← e) h) (r, h)
  move-Good late finishes s c r h e = finish-Good (get_deployment s.deployment_id s.store) s r h
  move-Good late closes s c r h e = phase-Good 3 100 finished s r h
  move-Good late finished s c r h e = (r, rw (← e) h)
  move-Good late halted s c r h e = (r, rw (← e) h)

  handled-Good : (e : Event) (s : System) → Good s → Good (record s { store = handled e s.store })
  handled-Good e s (r, h) =
      let f = handled-Follows e s.store in
      (
        stopped (get_deployment s.deployment_id s.store)
            (get_deployment s.deployment_id (handled e s.store)) (f.grows s.deployment_id) r,
        ap (◌++ ids (in_flight s.stage)) f.sent ∙ h,
      )

  step-Good : (s : System) (e : Event) → IsUpdate s.command → Good s → Good (step s e)
  unfolding step
  step-Good s (goes late) c h = move-Good late s.stage s c h.0 h.1 refl
  step-Good s (progresses d st n) c h = handled-Good (progresses d st n) s h
  step-Good s (fails r d m) c h = handled-Good (fails r d m) s h
  step-Good s (rolls_back id r) c h = handled-Good (rolls_back id r) s h
  step-Good s (reconciles id) c h = handled-Good (reconciles id) s h

  steps-Good : (es : List Event) (s : System) → IsUpdate s.command → Good s → Good (steps s es)
  unfolding steps
  steps-Good [] s c h = h
  steps-Good (e ∷ es) s c h =
      steps-Good es (step s e) (rw ((step-Keeps s e).0) c) (step-Good s e c h)

-- Once the row of a canary rollout of an update is not running (rolled back, completed or gone), it never runs
-- again, and whatever happens then, updates are sent to the robots of the phase that is under way
-- only: what was sent and what is under way stay the same together.
pub steps-IsStopped :
    (s : System) (es : List Event)
    → IsUpdate s.command
    → IsStopped s
    → IsStopped (steps s es)
      × (updates (steps s es).store.commands ++ ids (in_flight (steps s es).stage)
          ≡ updates s.store.commands ++ ids (in_flight s.stage))
steps-IsStopped s es c r =
    steps-Good (updates s.store.commands ++ ids (in_flight s.stage)) es s c (r, refl)
