-- ===== src/ControlPlane/Canary/Kept.antt =====
-- What stays of the rows during a canary rollout.
use ota_robot_system.Base.{
  ℕ, ◌≡◌, refl, ◌∙◌, String, Bool, true, false, Option, none, some, List, [], ◌∷◌, map,
  if◌then◌else◌,
}
use ota_robot_system.Types.{Device, Deployment}
use ota_robot_system.ControlPlane.Store.{
  Store, publish_command, get_deployment, update_deployment_phase, runs,
}
use ota_robot_system.ControlPlane.Manager.{is_over}
use ota_robot_system.ControlPlane.Manager.Parts.{part}
use ota_robot_system.ControlPlane.Manager.Follows.{
  GrowsOption, GrowsOption-refl, GrowsOption-trans, Follows, update_deployment_phase-Follows,
}
use ota_robot_system.ControlPlane.Canary.{
  Phase, is_last_phase, Stage, heads, enters, publishes, observes, finishes, closes, finished,
  halted, System, to_stage, enter, at_head, finish, close, move, Event, goes, progresses, fails,
  rolls_back, reconciles, handled, step, steps,
}
use ota_robot_system.ControlPlane.Canary.Steps.{handled-Follows}

-- The parts keep their previous versions, and rows of rollouts only grow.
pub record Kept (s t : Store) : Type 0 where
  pub parts : map part t.units ≡ map part s.units
  pub grows : (id : String) → GrowsOption (get_deployment id s) (get_deployment id t)

Kept-refl : (s : Store) → Kept s s
Kept-refl s = record { parts = refl; grows = λ id. GrowsOption-refl (get_deployment id s) }

Kept-trans : (s t u : Store) → Kept s t → Kept t u → Kept s u
Kept-trans s t u h k = record {
  parts = k.parts ∙ h.parts;
  grows = λ id.
      GrowsOption-trans (get_deployment id s) (get_deployment id t) (get_deployment id u)
        (h.grows id) (k.grows id);
}

Follows-Kept : (s t : Store) → Follows s t → Kept s t
Follows-Kept s t h = record { parts = h.parts; grows = h.grows }

either :
    (b : Bool) (s x y : System)
    → Kept s.store x.store
    → Kept s.store y.store
    → Kept s.store (if b then x else y).store
either true s x y h k = h
either false s x y h k = k

at_head-Kept :
    (p : Phase) (ds : List Device) (ps : List Phase) (s : System)
    → Kept s.store (at_head p ds ps s).store
unfolding at_head to_stage
at_head-Kept p [] ps s = Kept-refl s.store
at_head-Kept p (d ∷ ds) ps s =
    either (runs (get_deployment s.deployment_id s.store)) s _ _ (Kept-refl s.store)
      (Kept-refl s.store)

finish-Kept : (o : Option Deployment) (s : System) → Kept s.store (finish o s).store
unfolding finish to_stage
finish-Kept none s = Kept-refl s.store
finish-Kept (some d) s = either (is_over d.status) s _ _ (Kept-refl s.store) (Kept-refl s.store)

phase-Kept :
    (n percentage : ℕ) (id : String) (s : Store)
    → Kept s (update_deployment_phase id n percentage s)
phase-Kept n percentage id s =
    Follows-Kept s (update_deployment_phase id n percentage s)
      (update_deployment_phase-Follows id n percentage s)

move-Kept : (late : Bool) (st : Stage) (s : System) → Kept s.store (move late st s).store
unfolding move to_stage enter close publish_command
move-Kept late (heads []) s = Kept-refl s.store
move-Kept late (heads (p ∷ ps)) s = at_head-Kept p p.devices ps s
move-Kept late (enters p ps) s = phase-Kept p.phase_num p.percentage s.deployment_id s.store
move-Kept late (publishes num [] ps) s =
    either (is_last_phase s.total num) s _ _ (Kept-refl s.store) (Kept-refl s.store)
move-Kept late (publishes num (d ∷ ds) ps) s = record {
  parts = refl;
  grows = λ id. GrowsOption-refl (get_deployment id s.store);
}
move-Kept true (observes ps) s = Kept-refl s.store
move-Kept false (observes ps) s =
    either (runs (get_deployment s.deployment_id s.store)) s _ _ (Kept-refl s.store)
      (Kept-refl s.store)
move-Kept late finishes s = finish-Kept (get_deployment s.deployment_id s.store) s
move-Kept late closes s = phase-Kept 3 100 s.deployment_id s.store
move-Kept late finished s = Kept-refl s.store
move-Kept late halted s = Kept-refl s.store

handled-Kept : (e : Event) (s : Store) → Kept s (handled e s)
handled-Kept e s = Follows-Kept s (handled e s) (handled-Follows e s)

step-Kept : (s : System) (e : Event) → Kept s.store (step s e).store
unfolding step
step-Kept s (goes late) = move-Kept late s.stage s
step-Kept s (progresses d st n) = handled-Kept (progresses d st n) s.store
step-Kept s (fails r d m) = handled-Kept (fails r d m) s.store
step-Kept s (rolls_back id r) = handled-Kept (rolls_back id r) s.store
step-Kept s (reconciles id) = handled-Kept (reconciles id) s.store

-- Whatever is done, reported and asked for.
pub steps-Kept : (s : System) (es : List Event) → Kept s.store (steps s es).store
unfolding steps
steps-Kept s [] = Kept-refl s.store
steps-Kept s (e ∷ es) =
    Kept-trans s.store (step s e).store (steps (step s e) es).store (step-Kept s e)
      (steps-Kept (step s e) es)
