-- ===== src/ControlPlane/Canary/Stages.antt =====
-- What was sent of an update and what is left, in each stage of a canary rollout.
use ota_robot_system.Base.{
  ℕ, ◌≡◌, refl, sym, ◌∙◌, ap, String, Bool, true, false, Option, none, some, List, [], ◌∷◌, ◌++◌,
  Bool-cases, inl, inr, if◌then◌else◌,
}
use ota_robot_system.Types.{Device, Deployment}
use ota_robot_system.ControlPlane.Store.{get_deployment, update_deployment_phase, runs}
use ota_robot_system.ControlPlane.Manager.{is_over}
use ota_robot_system.ControlPlane.Manager.Follows.{updates}
use ota_robot_system.ControlPlane.Canary.{
  Phase, is_last_phase, Stage, heads, enters, publishes, observes, finishes, closes, finished,
  halted, System, to_stage, enter, at_head, finish, close, move, Event, goes, progresses, fails,
  rolls_back, reconciles, handled, step, steps,
}
use ota_robot_system.ControlPlane.Canary.Phases.{rest, Lasts}
use ota_robot_system.ControlPlane.Canary.Steps.{
  ids, IsUpdate, handled-Follows, updates-publish_command, move_one, step-Keeps,
}

-- The robots without a command, of a rollout that goes on.
abbrev pub to_send : Stage → List Device
to_send (heads ps) = rest ps
to_send (enters p ps) = p.devices ++ rest ps
to_send (publishes num ds ps) = ds ++ rest ps
to_send (observes ps) = rest ps
to_send finishes = []
to_send closes = []
to_send finished = []
to_send halted = []

abbrev pub IsLeft : Stage → List String → Type 0
IsLeft halted left = Unit
IsLeft (heads ps) left = left ≡ ids (rest ps)
IsLeft (enters p ps) left = left ≡ ids (p.devices ++ rest ps)
IsLeft (publishes num ds ps) left = left ≡ ids (ds ++ rest ps)
IsLeft (observes ps) left = left ≡ ids (rest ps)
IsLeft finishes left = left ≡ []
IsLeft closes left = left ≡ []
IsLeft finished left = left ≡ []

abbrev pub EndsWell : ℕ → Stage → Type 0
EndsWell n (heads ps) = Lasts n ps
EndsWell n (enters p ps) = (is_last_phase n p.phase_num ≡ true → rest ps ≡ []) × Lasts n ps
EndsWell n (publishes num ds ps) = (is_last_phase n num ≡ true → rest ps ≡ []) × Lasts n ps
EndsWell n (observes ps) = Lasts n ps
EndsWell n finishes = Unit
EndsWell n closes = Unit
EndsWell n finished = Unit
EndsWell n halted = Unit

module _ (goal : List String) where
  -- What was sent and what is left, in the stage.
  pub record IsSent (n : ℕ) (st : Stage) (sent : List String) : Type 0 where
    pub left : List String
    pub sums : sent ++ left ≡ goal
    pub is_left : IsLeft st left
    pub ends_well : EndsWell n st

  abbrev pub Good : System → Type 0
  Good s = IsSent s.total s.stage (updates s.store.commands)

  either : (b : Bool) (x y : System) → Good x → Good y → Good (if b then x else y)
  either true x y g k = g
  either false x y g k = k

  at_head-IsSent :
      (p : Phase) (ds : List Device) (ps : List Phase) (s : System)
      → ds ≡ p.devices
      → IsSent s.total (heads (p ∷ ps)) (updates s.store.commands)
      → Good (at_head p ds ps s)
  unfolding at_head to_stage
  at_head-IsSent p [] ps s e h = record {
    left = h.left;
    sums = h.sums;
    is_left = h.is_left ∙ ap (λ ds. ids (ds ++ rest ps)) (sym e);
    ends_well = h.ends_well.1;
  }
  at_head-IsSent p (d ∷ ds) ps s e h =
      either (runs (get_deployment s.deployment_id s.store)) _ _
        (record { left = h.left; sums = h.sums; is_left = h.is_left; ends_well = h.ends_well })
        (record { left = h.left; sums = h.sums; is_left = tt; ends_well = tt })

  finish-IsSent :
      (o : Option Deployment) (s : System)
      → IsSent s.total finishes (updates s.store.commands)
      → Good (finish o s)
  unfolding finish to_stage
  finish-IsSent none s h = record {
    left = h.left;
    sums = h.sums;
    is_left = h.is_left;
    ends_well = tt;
  }
  finish-IsSent (some dep) s h =
      either (is_over dep.status) _ _
        (record { left = h.left; sums = h.sums; is_left = h.is_left; ends_well = tt })
        (record { left = h.left; sums = h.sums; is_left = h.is_left; ends_well = tt })

  move-IsSent :
      (late : Bool) (st : Stage) (s : System)
      → IsUpdate s.command
      → IsSent s.total st (updates s.store.commands)
      → st ≡ s.stage
      → Good (move late st s)
  unfolding move to_stage enter close update_deployment_phase
  move-IsSent late (heads []) s c h e = record {
    left = h.left;
    sums = h.sums;
    is_left = h.is_left;
    ends_well = tt;
  }
  move-IsSent late (heads (p ∷ ps)) s c h e = at_head-IsSent p p.devices ps s refl h
  move-IsSent late (enters p ps) s c h e = record {
    left = h.left;
    sums = h.sums;
    is_left = h.is_left;
    ends_well = h.ends_well;
  }
  move-IsSent late (publishes num [] ps) s c h e = elim (Bool-cases (is_last_phase s.total num)) [
    | inl l ↦ rw l (record {
      left = h.left;
      sums = h.sums;
      is_left = h.is_left ∙ ap ids (h.ends_well.0 l);
      ends_well = tt;
    })
    | inr l ↦
        rw l
          (record { left = h.left; sums = h.sums; is_left = h.is_left; ends_well = h.ends_well.1 })
  ]
  move-IsSent late (publishes num (d ∷ ds) ps) s c h e = record {
    left = ids (ds ++ rest ps);
    sums =
        ap (◌++ ids (ds ++ rest ps)) (updates-publish_command d.id s.command s.store c)
        ∙ move_one (updates s.store.commands) goal (ids (ds ++ rest ps)) d.id
            (ap (updates s.store.commands ++◌) (sym h.is_left) ∙ h.sums);
    is_left = refl;
    ends_well = h.ends_well;
  }
  move-IsSent true (observes ps) s c h e = record {
    left = h.left;
    sums = h.sums;
    is_left = h.is_left;
    ends_well = h.ends_well;
  }
  move-IsSent false (observes ps) s c h e =
      either (runs (get_deployment s.deployment_id s.store)) _ _ (rw (← e) h)
        (record { left = h.left; sums = h.sums; is_left = tt; ends_well = tt })
  move-IsSent late finishes s c h e = finish-IsSent (get_deployment s.deployment_id s.store) s h
  move-IsSent late closes s c h e = record {
    left = h.left;
    sums = h.sums;
    is_left = h.is_left;
    ends_well = tt;
  }
  move-IsSent late finished s c h e = rw (← e) h
  move-IsSent late halted s c h e = rw (← e) h

  -- A handler's step, which changes the tables only.
  handled-IsSent : (e : Event) (s : System) → Good s → Good (record s { store = handled e s.store })
  handled-IsSent e s h = record {
    left = h.left;
    sums = ap (◌++ h.left) (handled-Follows e s.store).sent ∙ h.sums;
    is_left = h.is_left;
    ends_well = h.ends_well;
  }

  step-IsSent : (s : System) (e : Event) → IsUpdate s.command → Good s → Good (step s e)
  unfolding step
  step-IsSent s (goes late) c h = move-IsSent late s.stage s c h refl
  step-IsSent s (progresses d st n) c h = handled-IsSent (progresses d st n) s h
  step-IsSent s (fails r d m) c h = handled-IsSent (fails r d m) s h
  step-IsSent s (rolls_back id r) c h = handled-IsSent (rolls_back id r) s h
  step-IsSent s (reconciles id) c h = handled-IsSent (reconciles id) s h

  pub steps-IsSent :
      (es : List Event) (s : System) → IsUpdate s.command → Good s → Good (steps s es)
  unfolding steps
  steps-IsSent [] s c h = h
  steps-IsSent (e ∷ es) s c h =
      steps-IsSent es (step s e) (rw ((step-Keeps s e).0) c) (step-IsSent s e c h)
