-- ===== src/ControlPlane/Canary/Window.antt =====
-- Until the window after the first phase has passed, only the wave that the launch page announces is
-- sent the update.
use ota_robot_system.Base.{◌≡◌, String, false, List, [], ◌∷◌, ◌++◌}
use ota_robot_system.ControlPlane.Store.{Store}
use ota_robot_system.ControlPlane.Manager.Follows.{updates}
use ota_robot_system.ControlPlane.Canary.{
  Phase, Stage, heads, enters, publishes, observes, finishes, closes, finished, halted, System,
  Event, goes, progresses, fails, rolls_back, reconciles,
}
use ota_robot_system.ControlPlane.Canary.Steps.{ids}

-- No deadline has passed.
abbrev pub IsEarly : Event → Type 0
IsEarly (goes late) = late ≡ false
IsEarly (progresses d st n) = Unit
IsEarly (fails r d m) = Unit
IsEarly (rolls_back id r) = Unit
IsEarly (reconciles id) = Unit

module _ (later : List Phase) (first : Phase) (goal : List String) where
  -- What was sent, in the stages of the first phase.
  Early : Stage → List String → Type 0
  Early (heads []) sent = ⊥
  Early (heads (p ∷ ps)) sent = (p ≡ first) × (ps ≡ later) × (sent ++ ids first.devices ≡ goal)
  Early (enters p ps) sent = (p ≡ first) × (ps ≡ later) × (sent ++ ids first.devices ≡ goal)
  Early (publishes num ds ps) sent = (num ≡ 1) × (ps ≡ later) × (sent ++ ids ds ≡ goal)
  Early (observes ps) sent = sent ≡ goal
  Early finishes sent = ⊥
  Early closes sent = ⊥
  Early finished sent = ⊥
  Early halted sent = (left : List String) × (sent ++ left ≡ goal)

  abbrev Good : System → Type 0
  Good s = Early s.stage (updates s.store.commands)
