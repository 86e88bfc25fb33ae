-- ===== src/ControlPlane/Canary/Ends.antt =====
-- What a rollout of either strategy has sent when it has come to its end.
use mathlib.Core.List.{append-nil}
use ota_robot_system.Base.{◌≡◌, refl, sym, ◌∙◌, ap, String, List, [], ◌∷◌, ◌++◌}
use ota_robot_system.Types.{Device, Strategy, full, canary}
use ota_robot_system.ControlPlane.Store.{Store, Command, publish_command, update_deployment_phase}
use ota_robot_system.ControlPlane.Manager.Follows.{updates}
use ota_robot_system.ControlPlane.Canary.{
  finished, Started, refused, direct, background, publish_all, start, Event, steps,
}
use ota_robot_system.ControlPlane.Canary.Steps.{ids, IsUpdate, updates-publish_command, move_one}
use ota_robot_system.ControlPlane.Canary.Sent.{steps-run_canary-finished}

-- The tables at the end of a rollout: at once, or when its goroutine has finished.
abbrev pub Reaches : Started → List Event → Store → Type 0
Reaches (refused e) es t = ⊥
Reaches (direct u) es t = t ≡ u
Reaches (background g) es t = ((steps g es).stage ≡ finished) × (t ≡ (steps g es).store)

updates-publish_all :
    (ds : List Device) (cmd : Command) (s : Store)
    → IsUpdate cmd
    → updates (publish_all ds cmd s).commands ≡ updates s.commands ++ ids ds
unfolding publish_all
updates-publish_all [] cmd s c = sym (append-nil (updates s.commands))
updates-publish_all (d ∷ ds) cmd s c =
    updates-publish_all ds cmd (publish_command d.id cmd s) c
    ∙ ap (◌++ ids ds) (updates-publish_command d.id cmd s c)
    ∙ move_one (updates s.commands) (updates s.commands ++ ids (d ∷ ds)) (ids ds) d.id refl

-- A rollout that has come to its end has sent the update to each robot once, in order.
pub updates-start :
    (id : String) (strategy : Strategy) (ds : List Device) (cmd : Command) (s t : Store)
    (es : List Event)
    → IsUpdate cmd
    → Reaches (start id strategy ds cmd s) es t
    → updates t.commands ≡ updates s.commands ++ ids ds
unfolding start update_deployment_phase
updates-start id full ds cmd s t es c h =
    ap (λ u. updates u.commands) h ∙ updates-publish_all ds cmd s c
updates-start id canary ds cmd s t es c h =
    ap (λ u. updates u.commands) h.1 ∙ steps-run_canary-finished id ds cmd s es c h.0
