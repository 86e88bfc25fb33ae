-- ===== src/Fleet/Desk/Prunes.antt =====
-- Robots are removed one time after the other, and only while one is listed that has failed or is
-- offline.
use ota_robot_system.Base.{
  ℕ, ◌+◌, ◌≡◌, ◌≤◌, refl, sym, ◌∙◌, String, Bool, true, false, not, ◌||◌, ◌&&◌, Option, List, [],
  ◌∷◌, ltb, arith, All, Bool-cases, inl, inr, if◌then◌else◌, length, filter,
}
use ota_robot_system.Types.{Device, DeviceStatus, offline}
use ota_robot_system.Types.Reply.{Reply, resolved, rejected}
use ota_robot_system.Fleet.{
  Fleet, load_start, load_settle, prune_start, prune_settle, by_search, by_status, by_model,
  by_factory, set_field, reset, change_page, change_page_size, select_device, ask_prune,
  PruneControl, hidden, button, confirmation, prune_control, stats, has_status,
}
use ota_robot_system.Fleet.Desk.{
  Desk, begin, Edit, sets, resets, goes_to, sizes, selects, edit, load, Event, edits, loads,
  answers, offers, confirms, prune_replies, reloads, asks, send, confirm_at, confirm, pruned,
  prune_answer, reload, step, steps,
}

-- A list with a robot that is counted as offline.
abbrev pub HasOffline : List Device → Type 0
HasOffline ds =
    1 ≤ length (filter (λ d. has_status offline d || has_status DeviceStatus.error d) ds)

record IsOrderly (s : Desk) : Type 0 where
  offline : All HasOffline s.asked
  busy : s.fleet.is_pruning ≡ true → s.calling + s.reloading ≡ 1
  idle : s.fleet.is_pruning ≡ false → s.calling + s.reloading ≡ 0

-- A change of the fleet that leaves the lock alone.
with_fleet-IsOrderly :
    (s : Desk) (f : Fleet)
    → f.is_pruning ≡ s.fleet.is_pruning
    → IsOrderly s
    → IsOrderly (record s { fleet = f })
with_fleet-IsOrderly s f e h = record {
  offline = h.offline;
  busy = λ b. h.busy (sym e ∙ b);
  idle = λ b. h.idle (sym e ∙ b);
}

edit-is_pruning : (e : Edit) (s : Fleet) → (edit e s).is_pruning ≡ s.is_pruning
unfolding edit set_field reset change_page change_page_size select_device
edit-is_pruning (sets by_search v) s = refl
edit-is_pruning (sets by_status v) s = refl
edit-is_pruning (sets by_model v) s = refl
edit-is_pruning (sets by_factory v) s = refl
edit-is_pruning resets s = refl
edit-is_pruning (goes_to page) s = refl
edit-is_pruning (sizes size) s = refl
edit-is_pruning (selects d) s = refl

load_start-is_pruning : (b : Bool) (s : Fleet) → (load_start b s).is_pruning ≡ s.is_pruning
unfolding load_start
load_start-is_pruning true s = refl
load_start-is_pruning false s = refl

load_settle-is_pruning :
    (now : String) (r : Reply (Option (List Device))) (s : Fleet)
    → (load_settle now r s).is_pruning ≡ s.is_pruning
unfolding load_settle
load_settle-is_pruning now (resolved a) s = refl
load_settle-is_pruning now (rejected e) s = refl

asks-IsOrderly : (b : Bool) (c : PruneControl) (s : Desk) → IsOrderly s → IsOrderly (asks b c s)
unfolding asks ask_prune
asks-IsOrderly true hidden s h = h
asks-IsOrderly false hidden s h = h
asks-IsOrderly true (button n) s h = with_fleet-IsOrderly s (ask_prune true s.fleet) refl h
asks-IsOrderly true (confirmation n) s h = h
asks-IsOrderly false (button n) s h = h
asks-IsOrderly false (confirmation n) s h = with_fleet-IsOrderly s (ask_prune false s.fleet) refl h

either :
    (b : Bool) {x y : Desk}
    → (b ≡ true → IsOrderly x)
    → (b ≡ false → IsOrderly y)
    → IsOrderly (if b then x else y)
either true f g = f refl
either false f g = g refl

-- The question stands only while a robot is counted as offline.
confirmation-HasOffline :
    (s : Fleet) (n : ℕ) → prune_control s ≡ confirmation n → HasOffline s.devices
unfolding prune_control stats
confirmation-HasOffline s n e = ground (arith, e)

confirm_at-IsOrderly :
    (c : PruneControl) (s : Desk)
    → prune_control s.fleet ≡ c
    → IsOrderly s
    → IsOrderly (confirm_at c s)
unfolding confirm_at send prune_start
confirm_at-IsOrderly hidden s e h = h
confirm_at-IsOrderly (button n) s e h = h
confirm_at-IsOrderly (confirmation n) s e h =
    either s.fleet.is_pruning (λ l. h)
      (λ l. record {
        offline = (confirmation-HasOffline s.fleet n e, h.offline);
        busy = λ b. ground (arith, h.idle l);
        idle = λ b. cc;
      })

prune_answer-IsOrderly : (r : Reply String) (s : Desk) → IsOrderly s → IsOrderly (prune_answer r s)
unfolding prune_answer pruned prune_settle
prune_answer-IsOrderly (resolved n) s h =
    either (ltb 0 s.calling)
      (λ l. record {
        offline = h.offline;
        busy = λ b. ground (arith, h.busy b);
        idle = λ b. ground (arith, h.idle b);
      })
      (λ l. h)
prune_answer-IsOrderly (rejected e) s h =
    either (ltb 0 s.calling)
      (λ l. record {
        offline = h.offline;
        busy = λ b. cc;
        idle = λ b. elim (Bool-cases s.fleet.is_pruning) [
          | inl p ↦ ground (arith, h.busy p)
          | inr p ↦ ground (arith, h.idle p)
        ];
      })
      (λ l. h)

reload-IsOrderly :
    (now : String) (r : Reply (Option (List Device))) (s : Desk)
    → IsOrderly s
    → IsOrderly (reload now r s)
unfolding reload
reload-IsOrderly now r s h =
    either (ltb 0 s.reloading)
      (λ l. record {
        offline = h.offline;
        busy = λ b. cc;
        idle = λ b. elim (Bool-cases s.fleet.is_pruning) [
          | inl p ↦ ground (arith, h.busy p)
          | inr p ↦ ground (arith, h.idle p)
        ];
      })
      (λ l. h)

step-IsOrderly : (s : Desk) (e : Event) → IsOrderly s → IsOrderly (step s e)
unfolding step load confirm
step-IsOrderly s (edits e) h = with_fleet-IsOrderly s (edit e s.fleet) (edit-is_pruning e s.fleet) h
step-IsOrderly s (loads b) h =
    either (not b && s.fleet.is_refreshing) (λ l. h)
      (λ l. with_fleet-IsOrderly s (load_start b s.fleet) (load_start-is_pruning b s.fleet) h)
step-IsOrderly s (answers now r) h =
    with_fleet-IsOrderly s (load_settle now r s.fleet) (load_settle-is_pruning now r s.fleet) h
step-IsOrderly s (offers b) h = asks-IsOrderly b (prune_control s.fleet) s h
step-IsOrderly s confirms h = confirm_at-IsOrderly (prune_control s.fleet) s refl h
step-IsOrderly s (prune_replies r) h = prune_answer-IsOrderly r s h
step-IsOrderly s (reloads now r) h = reload-IsOrderly now r s h

steps-IsOrderly : (es : List Event) (s : Desk) → IsOrderly s → IsOrderly (steps s es)
unfolding steps
steps-IsOrderly [] s h = h
steps-IsOrderly (e ∷ es) s h = steps-IsOrderly es (step s e) (step-IsOrderly s e h)

-- Whatever is clicked, polled and answered on the overview: each removal was asked for while a robot
-- was listed as offline or failed, at most one removal or the load after it is on its way, and the
-- button is locked exactly meanwhile.
pub steps-begin-HasOffline :
    (es : List Event)
    → let s = steps begin es in
      All HasOffline s.asked × (s.calling + s.reloading ≡ (if s.fleet.is_pruning then 1 else 0))
steps-begin-HasOffline es =
    let h = steps-IsOrderly es begin (record { offline = tt; busy = λ e. cc; idle = λ e. refl }) in
    (
      h.offline,
      elim (Bool-cases (steps begin es).fleet.is_pruning) [
        | inl b ↦ ground (arith, h.busy b)
        | inr b ↦ ground (arith, h.idle b)
      ],
    )
