-- ===== src/Api/SingleFlight.antt =====
-- `coordinatedRefresh` (frontend/src/lib/api.ts) under concurrent callers. The event loop runs
-- one handler at a time, so a history is a list of events: a caller enters, or the answer to the
-- refresh in flight arrives.
pub mod Coalesce
pub mod Batches
use ota_robot_system.Base.{
  ℕ, suc, Bool, Option, none, some, List, [], ◌∷◌, ◌++◌, map, filter, not, ◌==◌, nat_eq,
}

pub record RefreshState : Type 0 where
  -- `activeRefreshPromise`, by the number of the request that it waits for
  pub active : Option ℕ
  -- requests sent so far
  pub issued : ℕ
  -- requests without an answer
  pub in_flight : List ℕ
  -- callers that wait, each with its promise
  pub waiting : List (ℕ × ℕ)
  -- callers that have their answer
  pub answered : List (ℕ × Bool)

abbrev pub idle : RefreshState
idle = record { active = none; issued = 0; in_flight = []; waiting = []; answered = [] }

pub data Event : Type 0 where
  enter : ℕ → Event
  settle : Bool → Event

start : RefreshState → ℕ → RefreshState
start s caller = record {
  active = some s.issued;
  issued = suc s.issued;
  in_flight = s.in_flight ++ s.issued ∷ [];
  waiting = s.waiting ++ (caller, s.issued) ∷ [];
  answered = s.answered;
}

join : RefreshState → ℕ → Option ℕ → RefreshState
unfolding start
join s caller none = start s caller
join s caller (some p) = record s { waiting = s.waiting ++ (caller, p) ∷ [] }

-- `coordinatedRefresh()`: the promise that is there, or a new one.
unfoldable pub coordinated_refresh : RefreshState → ℕ → RefreshState
unfolding join
coordinated_refresh s caller = join s caller s.active

unfoldable pub waits_on : ℕ → ℕ × ℕ → Bool
waits_on p w = w.1 == p

unfoldable pub answers : Bool → ℕ → List (ℕ × ℕ) → List (ℕ × Bool)
unfolding waits_on
answers good p waiting = map (λ w. (w.0, good)) (filter (waits_on p) waiting)

-- The answer to the oldest request in flight: `finally` forgets the active promise, and those
-- that wait for this promise go on. With no request in flight no answer arrives.
finish : RefreshState → Bool → List ℕ → RefreshState
unfolding answers
finish s good [] = s
finish s good (p ∷ rest) = record {
  active = none;
  issued = s.issued;
  in_flight = rest;
  waiting = filter (λ w. not (waits_on p w)) s.waiting;
  answered = s.answered ++ answers good p s.waiting;
}

unfoldable pub step : RefreshState → Event → RefreshState
unfolding finish coordinated_refresh
step s (enter caller) = coordinated_refresh s caller
step s (settle good) = finish s good s.in_flight

unfoldable pub run : RefreshState → List Event → RefreshState
unfolding step
run s [] = s
run s (e ∷ es) = run (step s e) es
