-- ===== src/Polling/Examples.antt =====
-- A poll at work, and the theorems about it at concrete inputs.
use ota_robot_system.Base.{◌≤◌, ◌≡◌, refl, ◌⊎◌, true, false, List, [], ◌∷◌, length}
use ota_robot_system.Polling.{Poll, Event, fires, visibility, settles, cleanup, start, steps}
use ota_robot_system.Polling.Invariant.{steps-start}
use ota_robot_system.Polling.Refinement.{view, cycles, cycle, signals, view-steps-start}

-- Two polls, with the page hidden and shown in between.
abbrev day : List Event
day = fires 1 ∷ settles ∷ visibility false ∷ fires 2 ∷ visibility true ∷ []

steps-day : (steps (start true) day).started ≡ 2
unfolding steps start
steps-day = refl

steps-start_example :
    ((steps (start true) day).in_flight ≤ 1)
    × (length (steps (start true) day).pending ≤ 1)
    × ((steps (start true) day).cancelled ≡ false
        → ((steps (start true) day).running ≡ true) ⊎ (length (steps (start true) day).pending ≡ 1))
steps-start_example = steps-start true day

-- The clean-up while the second call is in flight.
abbrev left : Poll
left = steps (start true) (fires 1 ∷ settles ∷ fires 2 ∷ cleanup ∷ [])

view-steps-start_example :
    view (steps (start true) day) ≡ cycles (cycle true) (signals (start true) day)
view-steps-start_example = view-steps-start true day
