-- ===== src/Catalog/Desk/Orderly.antt =====
-- One call of each kind at a time, and nothing is published or changed without a version.
use ota_robot_system.Base.{◌≤◌, String, Option, List, [], ◌∷◌, ltb, nat_eq, All, string_eq}
use ota_robot_system.Types.{FirmwareVersion}
use ota_robot_system.Types.Reply.{Reply, resolved, rejected}
use ota_robot_system.Catalog.{initial, load_settle, upload_settle}
use ota_robot_system.Catalog.Dialogs.{update_settle, delete_settle}
use ota_robot_system.Catalog.Desk.{
  Desk, begin, Event, edits, publishes, saves, confirms, upload_replies, update_replies,
  delete_replies, update_reloads, delete_reloads, upload_answer, update_answered, update_answer,
  update_reload, delete_answered, delete_answer, delete_reload, step, steps,
}
use ota_robot_system.Catalog.Desk.Locks.{
  IsLocked, IsLocked-quiet, answered-IsLocked, awaited-IsLocked, reloaded-IsLocked,
  IsLocked-calling,
}
use ota_robot_system.Catalog.Desk.Asked.{
  IsVersion, IsOrderly, either, edit-IsOrderly, publish-IsOrderly, save-IsOrderly,
  confirm-IsOrderly,
}

module _ (s : Desk) (h : IsOrderly s) where
  upload_answer-IsOrderly : (v : String) (r : Reply (Unit {0})) → IsOrderly (upload_answer v r s)
  unfolding upload_answer upload_settle
  upload_answer-IsOrderly v (resolved u) =
      either (ltb 0 s.uploads.calling)
        (λ l. record {
          uploads = answered-IsLocked s.catalog.is_uploading s.uploads h.uploads l;
          updates = h.updates;
          removals = h.removals;
          published = h.published;
          changed = h.changed;
        })
        (λ l. h)
  upload_answer-IsOrderly v (rejected e) =
      either (ltb 0 s.uploads.calling)
        (λ l. record {
          uploads = answered-IsLocked s.catalog.is_uploading s.uploads h.uploads l;
          updates = h.updates;
          removals = h.removals;
          published = h.published;
          changed = h.changed;
        })
        (λ l. h)

  update_answer-IsOrderly : (v : String) (r : Reply (Unit {0})) → IsOrderly (update_answer v r s)
  unfolding update_answer update_answered update_settle
  update_answer-IsOrderly v (resolved u) =
      either (ltb 0 s.updates.calling)
        (λ l. record {
          uploads = h.uploads;
          updates = awaited-IsLocked s.catalog.is_updating s.updates h.updates l;
          removals = h.removals;
          published = h.published;
          changed = h.changed;
        })
        (λ l. h)
  update_answer-IsOrderly v (rejected e) =
      either (ltb 0 s.updates.calling)
        (λ l. record {
          uploads = h.uploads;
          updates = answered-IsLocked s.catalog.is_updating s.updates h.updates l;
          removals = h.removals;
          published = h.published;
          changed = h.changed;
        })
        (λ l. h)

  update_reload-IsOrderly :
      (r : Reply (Option (List FirmwareVersion))) → IsOrderly (update_reload r s)
  unfolding update_reload load_settle
  update_reload-IsOrderly (resolved a) =
      either (ltb 0 s.updates.reloading)
        (λ l. record {
          uploads = h.uploads;
          updates = reloaded-IsLocked s.catalog.is_updating s.updates h.updates l;
          removals = h.removals;
          published = h.published;
          changed = h.changed;
        })
        (λ l. h)
  update_reload-IsOrderly (rejected e) =
      either (ltb 0 s.updates.reloading)
        (λ l. record {
          uploads = h.uploads;
          updates = reloaded-IsLocked s.catalog.is_updating s.updates h.updates l;
          removals = h.removals;
          published = h.published;
          changed = h.changed;
        })
        (λ l. h)

  delete_answer-IsOrderly : (v : String) (r : Reply (Unit {0})) → IsOrderly (delete_answer v r s)
  unfolding delete_answer delete_answered delete_settle
  delete_answer-IsOrderly v (resolved u) =
      either (ltb 0 s.removals.calling)
        (λ l. record {
          uploads = h.uploads;
          updates = h.updates;
          removals = awaited-IsLocked s.catalog.is_deleting s.removals h.removals l;
          published = h.published;
          changed = h.changed;
        })
        (λ l. h)
  delete_answer-IsOrderly v (rejected e) =
      either (ltb 0 s.removals.calling)
        (λ l. record {
          uploads = h.uploads;
          updates = h.updates;
          removals = answered-IsLocked s.catalog.is_deleting s.removals h.removals l;
          published = h.published;
          changed = h.changed;
        })
        (λ l. h)

  delete_reload-IsOrderly :
      (r : Reply (Option (List FirmwareVersion))) → IsOrderly (delete_reload r s)
  unfolding delete_reload load_settle
  delete_reload-IsOrderly (resolved a) =
      either (ltb 0 s.removals.reloading)
        (λ l. record {
          uploads = h.uploads;
          removals = reloaded-IsLocked s.catalog.is_deleting s.removals h.removals l;
          updates = h.updates;
          published = h.published;
          changed = h.changed;
        })
        (λ l. h)
  delete_reload-IsOrderly (rejected e) =
      either (ltb 0 s.removals.reloading)
        (λ l. record {
          uploads = h.uploads;
          removals = reloaded-IsLocked s.catalog.is_deleting s.removals h.removals l;
          updates = h.updates;
          published = h.published;
          changed = h.changed;
        })
        (λ l. h)

step-IsOrderly : (s : Desk) (e : Event) → IsOrderly s → IsOrderly (step s e)
unfolding step
step-IsOrderly s (edits e) h = edit-IsOrderly s h e
step-IsOrderly s publishes h = publish-IsOrderly s h
step-IsOrderly s saves h = save-IsOrderly s h
step-IsOrderly s confirms h = confirm-IsOrderly s h
step-IsOrderly s (upload_replies v r) h = upload_answer-IsOrderly s h v r
step-IsOrderly s (update_replies v r) h = update_answer-IsOrderly s h v r
step-IsOrderly s (delete_replies v r) h = delete_answer-IsOrderly s h v r
step-IsOrderly s (update_reloads r) h = update_reload-IsOrderly s h r
step-IsOrderly s (delete_reloads r) h = delete_reload-IsOrderly s h r

steps-IsOrderly : (es : List Event) (s : Desk) → IsOrderly s → IsOrderly (steps s es)
unfolding steps
steps-IsOrderly [] s h = h
steps-IsOrderly (e ∷ es) s h = steps-IsOrderly es (step s e) (step-IsOrderly s e h)

-- Whatever is done to the page and answered, from its first state on: at most one upload, one
-- change and one removal wait for an answer, a button is locked exactly while its call or the load
-- after it is on its way, and each version that was published or changed is trimmed and not empty.
pub steps-begin-IsOrderly :
    (es : List Event)
    → let s = steps (begin initial) es in
      ((s.uploads.calling ≤ 1) × (s.updates.calling ≤ 1) × (s.removals.calling ≤ 1))
      × (IsLocked s.catalog.is_uploading s.uploads
          × IsLocked s.catalog.is_updating s.updates
          × IsLocked s.catalog.is_deleting s.removals)
      × All (λ p. IsVersion p.1) s.uploaded
      × All (λ p. IsVersion p.1) s.updated
steps-begin-IsOrderly es =
    let h = steps-IsOrderly es (begin initial) (record {
      uploads = IsLocked-quiet;
      updates = IsLocked-quiet;
      removals = IsLocked-quiet;
      published = tt;
      changed = tt;
    }) in
    (
      (
        IsLocked-calling _ _ h.uploads,
        IsLocked-calling _ _ h.updates,
        IsLocked-calling _ _ h.removals,
      ),
      (h.uploads, h.updates, h.removals),
      h.published,
      h.changed,
    )
