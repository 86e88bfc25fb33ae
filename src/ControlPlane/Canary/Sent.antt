-- ===== src/ControlPlane/Canary/Sent.antt =====
-- Each robot of a canary rollout is sent the update once at most, in the order of the targets.
use mathlib.Core.List.{append-nil}
use mathlib.Core.Path.{subst}
use ota_robot_system.Base.{ℕ, ◌≡◌, refl, sym, ◌∙◌, ap, String, List, [], ◌++◌, length}
use ota_robot_system.Types.{Device}
use ota_robot_system.ControlPlane.Store.{Store, Command}
use ota_robot_system.ControlPlane.Manager.Follows.{updates}
use ota_robot_system.ControlPlane.Canary.{phases, Stage, heads, finished, run_canary, Event, steps}
use ota_robot_system.ControlPlane.Canary.Phases.{rest-phases, Lasts-phases}
use ota_robot_system.ControlPlane.Canary.Steps.{ids, IsUpdate}
use ota_robot_system.ControlPlane.Canary.Stages.{IsLeft, IsSent, steps-IsSent}

IsSent-run_canary :
    (id : String) (ds : List Device) (cmd : Command) (s : Store)
    → IsSent (updates s.commands ++ ids ds) (length ds) (heads (phases ds)) (updates s.commands)
IsSent-run_canary id ds cmd s = record {
  left = ids ds;
  sums = refl;
  is_left = ap ids (sym (rest-phases ds));
  ends_well = Lasts-phases ds;
}

left_of :
    (goal : List String) (n : ℕ) (st : Stage) (sent : List String)
    → IsSent goal n st sent
    → (left : List String) × (sent ++ left ≡ goal)
left_of goal n st sent h = (h.left, h.sums)

all_sent :
    (goal : List String) (n : ℕ) (st : Stage) (sent : List String)
    → st ≡ finished
    → IsSent goal n st sent
    → sent ≡ goal
all_sent goal n st sent e h =
    let nothing : h.left ≡ [] = subst (λ x. IsLeft x h.left) e h.is_left in
    sym (append-nil sent) ∙ ap (sent ++◌) (sym nothing) ∙ h.sums

module _ (id : String) (ds : List Device) (cmd : Command) (s : Store) (es : List Event) where
  -- A canary rollout of an update under any schedule of its goroutine, of reports, of rollbacks and of
  -- loads of the monitor: the updates sent since its start go to the targets in their order, to
  -- each of them once at most.
  pub steps-run_canary :
      IsUpdate cmd
      → (left : List String) × (updates (steps (run_canary id ds cmd s) es).store.commands ++ left
          ≡ updates s.commands ++ ids ds)
  steps-run_canary c =
      let t = steps (run_canary id ds cmd s) es in
      left_of (updates s.commands ++ ids ds) t.total t.stage (updates t.store.commands) (
        steps-IsSent (updates s.commands ++ ids ds) es (run_canary id ds cmd s) c
          (IsSent-run_canary id ds cmd s))

  -- A canary rollout of an update whose goroutine came to its end without being stopped has sent the update to
  -- every target exactly once.
  pub steps-run_canary-finished :
      IsUpdate cmd
      → (steps (run_canary id ds cmd s) es).stage ≡ finished
      → updates (steps (run_canary id ds cmd s) es).store.commands ≡ updates s.commands ++ ids ds
  steps-run_canary-finished c f =
      let t = steps (run_canary id ds cmd s) es in
      all_sent (updates s.commands ++ ids ds) t.total t.stage (updates t.store.commands) f (
        steps-IsSent (updates s.commands ++ ids ds) es (run_canary id ds cmd s) c
          (IsSent-run_canary id ds cmd s))
