-- ===== src/Fleet/Desk.antt =====
-- The overview as the operator meets it (frontend/src/app/page.tsx), under any sequence of clicks,
-- inputs, ticks of the poll and answers. Loads of the fleet may overlap: the poll, the button and
-- the load after a removal do not wait for each other, and any of them may be answered first.
pub mod Prunes
use ota_robot_system.Base.{
  ℕ, ◌+◌, ◌-◌, String, Bool, true, false, not, ◌&&◌, Option, none, some, List, [], ◌∷◌, ltb,
  if◌then◌else◌, Out,
}
use ota_robot_system.Types.{Device}
use ota_robot_system.Types.Reply.{Reply, resolved, rejected}
use ota_robot_system.Fleet.{
  Fleet, initial, load_start, load_settle, prune_start, prune_settle, Field, set_field, reset,
  change_page, change_page_size, select_device, ask_prune, PruneControl, hidden, button,
  confirmation, prune_control,
}

pub record Desk : Type 0 where
  pub fleet : Fleet
  -- the robots that were listed when a removal was asked for, last one first
  pub asked : List (List Device)
  -- the removals without an answer, and the loads that they await
  pub calling : ℕ
  pub reloading : ℕ

abbrev pub begin : Desk
begin = record { fleet = initial; asked = []; calling = 0; reloading = 0 }

-- A change of the page that makes no call.
pub data Edit : Type 0 where
  sets : Field → String → Edit
  resets : Edit
  goes_to sizes : ℕ → Edit
  selects : Option Device → Edit

unfoldable pub edit : Edit → Fleet → Fleet
edit (sets f v) s = set_field f v s
edit resets s = reset s
edit (goes_to page) s = change_page page s
edit (sizes size) s = change_page_size size s
edit (selects d) s = select_device d s

pub data Event : Type 0 where
  edits : Edit → Event
  -- the poll, where it is silent, or the opening of the page and the button
  loads : Bool → Event
  -- the answer to a load, with the time
  answers : String → Reply (Option (List Device)) → Event
  -- the button of the removal, with `true`, and the one that takes it back
  offers : Bool → Event
  confirms : Event
  prune_replies : Reply String → Event
  -- the answer to the load after a removal
  reloads : String → Reply (Option (List Device)) → Event

-- A load by the poll, or by a button that is locked during a load that it shows.
load : Bool → Desk → Desk
load silent s =
    if not silent && s.fleet.is_refreshing
    then s
    else record s { fleet = load_start silent s.fleet }

-- The buttons of the removal that are there: the first one, or those of the question.
asks : Bool → PruneControl → Desk → Desk
asks b hidden s = s
asks true (button n) s = record s { fleet = ask_prune true s.fleet }
asks true (confirmation n) s = s
asks false (button n) s = s
asks false (confirmation n) s = record s { fleet = ask_prune false s.fleet }

send : Desk → Desk
send s = record s {
  fleet = prune_start s.fleet;
  asked = s.fleet.devices ∷ s.asked;
  calling = s.calling + 1;
}

confirm_at : PruneControl → Desk → Desk
unfolding send
confirm_at hidden s = s
confirm_at (button n) s = s
confirm_at (confirmation n) s = if s.fleet.is_pruning then s else send s

-- `handlePruneOffline`, of a button in the question that is locked during a removal.
unfoldable pub confirm : Desk → Desk
unfolding confirm_at
confirm s = confirm_at (prune_control s.fleet) s

-- The rest of `handlePruneOffline` up to the load that it awaits.
pruned : Reply String → Desk → Desk
pruned (resolved deleted_count) s = record s {
  fleet = record (prune_settle (λ f. f) (resolved deleted_count) s.fleet).state {
    is_pruning = s.fleet.is_pruning;
  };
  calling = s.calling - 1;
  reloading = s.reloading + 1;
}
pruned (rejected e) s = record s {
  fleet = (prune_settle (λ f. f) (rejected e) s.fleet).state;
  calling = s.calling - 1;
}

unfoldable pub prune_answer : Reply String → Desk → Desk
unfolding pruned
prune_answer r s = if ltb 0 s.calling then pruned r s else s

unfoldable pub reload : String → Reply (Option (List Device)) → Desk → Desk
reload now r s =
    if ltb 0 s.reloading
    then record s {
      fleet = record (load_settle now r s.fleet) { is_pruning = false };
      reloading = s.reloading - 1;
    }
    else s

unfoldable pub step : Desk → Event → Desk
unfolding edit load asks confirm prune_answer reload
step s (edits e) = record s { fleet = edit e s.fleet }
step s (loads silent) = load silent s
step s (answers now r) = record s { fleet = load_settle now r s.fleet }
step s (offers b) = asks b (prune_control s.fleet) s
step s confirms = confirm s
step s (prune_replies r) = prune_answer r s
step s (reloads now r) = reload now r s

unfoldable pub steps : Desk → List Event → Desk
unfolding step
steps s [] = s
steps s (e ∷ es) = steps (step s e) es
