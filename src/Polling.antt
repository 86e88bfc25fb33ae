-- ===== src/Polling.antt =====
-- `useVisibilityPolling` (frontend/src/hooks/useVisibilityPolling.ts): the closure's variables,
-- the timers of the event loop and the visibility of the page, as a state; what the event loop
-- may do next, as events. The callback is the caller's, so it settles at an event of its own.
pub mod Invariant
pub mod Cleanup
pub mod Refinement
pub mod Examples
use ota_robot_system.Base.{
  ℕ, suc, ◌+◌, ◌-◌, Bool, true, false, not, ◌&&◌, ◌||◌, Option, none, some, List, [], ◌∷◌, ◌++◌,
  filter, includes, ◌==◌, nat_eq, if◌then◌else◌,
}

pub record Poll : Type 0 where
  pub cancelled : Bool
  pub running : Bool
  -- the last timer that was set, which may have fired since
  pub timer : Option ℕ
  -- the timers that are set
  pub pending : List ℕ
  pub next_id : ℕ
  pub visible : Bool
  -- calls of the callback that have not settled, and calls that were made
  pub in_flight : ℕ
  pub started : ℕ

pub data Event : Type 0 where
  fires : ℕ → Event
  visibility : Bool → Event
  settles : Event
  cleanup : Event

unfoldable pub schedule : Poll → Poll
schedule p = if p.cancelled then p else record p {
  timer = some p.next_id;
  pending = p.next_id ∷ p.pending;
  next_id = suc p.next_id;
}

-- `run`, up to the `await` of the callback.
unfoldable pub run : Poll → Poll
unfolding schedule
run p =
    if p.cancelled || p.running
    then p
    else if not p.visible
    then schedule p
    else record p { running = true; in_flight = p.in_flight + 1; started = p.started + 1 }

-- `clearTimeout(timer)`.
unfoldable pub clear : Option ℕ → Poll → Poll
clear none p = p
clear (some t) p = record p { pending = filter (λ u. not (u == t)) p.pending }

unfoldable pub handle_visibility_change : Poll → Poll
unfolding run clear
handle_visibility_change p = if not p.visible || p.running then p else run (clear p.timer p)

-- The `finally` after the callback.
after_callback : Poll → Poll
unfolding schedule
after_callback p = schedule (record p { running = false; in_flight = p.in_flight - 1 })

-- The function that the effect returns.
clean_up : Poll → Poll
unfolding clear
clean_up p = clear p.timer (record p { cancelled = true })

fire : ℕ → Poll → Poll
unfolding run
fire t p = run (record p { pending = filter (λ u. not (u == t)) p.pending })

-- Only a timer that is set fires, only a call in flight settles, and the listener is there until
-- the clean-up.
unfoldable pub step : Poll → Event → Poll
unfolding fire handle_visibility_change after_callback clean_up
step p (fires t) = if includes p.pending t then fire t p else p
step p (visibility v) =
    if p.cancelled
    then record p { visible = v }
    else handle_visibility_change (record p { visible = v })
step p settles = if p.running then after_callback p else p
step p cleanup = if p.cancelled then p else clean_up p

-- The effect's set-up, on a page that is visible or not.
unfoldable pub start : Bool → Poll
unfolding schedule
start v = schedule (record {
  cancelled = false;
  running = false;
  timer = none;
  pending = [];
  next_id = 1;
  visible = v;
  in_flight = 0;
  started = 0;
})

unfoldable pub steps : Poll → List Event → Poll
unfolding step
steps p [] = p
steps p (e ∷ es) = steps (step p e) es
