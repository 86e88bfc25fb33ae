-- ===== src/ControlPlane/Canary/Steps.antt =====
-- What the steps of a canary rollout do to the tables and to the commands.
use mathlib.Core.List.{append_assoc}
use ota_robot_system.Base.{
  ◌≡◌, refl, ◌∙◌, ap, String, Bool, true, false, Option, none, some, List, [], ◌∷◌, ◌++◌, map,
  arith,
}
use ota_robot_system.Types.{Device, Deployment}
use ota_robot_system.ControlPlane.Store.{
  Store, Command, update, rollback, publish_command, get_deployment,
}
use ota_robot_system.ControlPlane.Manager.Follows.{updates, updates-append, Follows, Follows-refl}
use ota_robot_system.ControlPlane.Manager.Handlers.{
  handle_device_progress-Follows, handle_device_error-Follows, execute_rollback-Follows,
  reconcile-Follows,
}
use ota_robot_system.ControlPlane.Canary.{
  Phase, Stage, heads, enters, publishes, observes, finishes, closes, finished, halted, System,
  to_stage, enter, at_head, finish, close, move, step, Event, goes, progresses, fails, rolls_back,
  reconciles, handled,
}

abbrev pub ids : List Device → List String
ids ds = map (λ d. d.id) ds

abbrev pub IsUpdate : Command → Type 0
IsUpdate (update v h u k g) = Unit {0}
IsUpdate (rollback v r) = ⊥

-- A report, a request for a rollback or a load of the monitor: no update is sent, no counter falls,
-- the number of targets stays, a status changes to completed or rolled back only, and the parts of
-- robots keep their rollouts and previous versions.
pub handled-Follows : (e : Event) (s : Store) → Follows s (handled e s)
unfolding handled
handled-Follows (goes late) s = Follows-refl s
handled-Follows (progresses d st n) s = handle_device_progress-Follows d st n s
handled-Follows (fails r d m) s = handle_device_error-Follows r d m s
handled-Follows (rolls_back id r) s = execute_rollback-Follows id r s
handled-Follows (reconciles id) s = reconcile-Follows id s

updates-one : (id : String) (c : Command) → IsUpdate c → updates ((id, c) ∷ []) ≡ id ∷ []
updates-one id (update v h u k g) p = refl
updates-one id (rollback v r) p = absurd p

pub updates-publish_command :
    (id : String) (c : Command) (s : Store)
    → IsUpdate c
    → updates (publish_command id c s).commands ≡ updates s.commands ++ id ∷ []
unfolding publish_command
updates-publish_command id c s p =
    updates-append s.commands ((id, c) ∷ []) ∙ ap (updates s.commands ++◌) (updates-one id c p)

-- The next id moves from what is left to what was sent.
pub move_one :
    (sent goal left : List String) (id : String)
    → sent ++ id ∷ left ≡ goal
    → (sent ++ id ∷ []) ++ left ≡ goal
move_one sent goal left id e = append_assoc sent (id ∷ []) left ∙ e

-- A goroutine keeps its command, its number of robots and its rollout.
abbrev pub Keeps : System → System → Type 0
Keeps s t = (t.command ≡ s.command) × (t.total ≡ s.total) × (t.deployment_id ≡ s.deployment_id)

at_head-Keeps :
    (p : Phase) (ds : List Device) (ps : List Phase) (s : System) → Keeps s (at_head p ds ps s)
unfolding at_head to_stage
at_head-Keeps p [] ps s = (refl, refl, refl)
at_head-Keeps p (d ∷ ds) ps s = ground arith

finish-Keeps : (o : Option Deployment) (s : System) → Keeps s (finish o s)
unfolding finish to_stage
finish-Keeps none s = (refl, refl, refl)
finish-Keeps (some dep) s = ground arith

move-Keeps : (late : Bool) (st : Stage) (s : System) → Keeps s (move late st s)
unfolding move to_stage enter close
move-Keeps late (heads []) s = (refl, refl, refl)
move-Keeps late (heads (p ∷ ps)) s = at_head-Keeps p p.devices ps s
move-Keeps late (enters p ps) s = (refl, refl, refl)
move-Keeps late (publishes num [] ps) s = ground arith
move-Keeps late (publishes num (d ∷ ds) ps) s = (refl, refl, refl)
move-Keeps true (observes ps) s = (refl, refl, refl)
move-Keeps false (observes ps) s = ground arith
move-Keeps late finishes s = finish-Keeps (get_deployment s.deployment_id s.store) s
move-Keeps late closes s = (refl, refl, refl)
move-Keeps late finished s = (refl, refl, refl)
move-Keeps late halted s = (refl, refl, refl)

pub step-Keeps : (s : System) (e : Event) → Keeps s (step s e)
unfolding step
step-Keeps s (goes late) = move-Keeps late s.stage s
step-Keeps s (progresses d st n) = (refl, refl, refl)
step-Keeps s (fails r d m) = (refl, refl, refl)
step-Keeps s (rolls_back id r) = (refl, refl, refl)
step-Keeps s (reconciles id) = (refl, refl, refl)
