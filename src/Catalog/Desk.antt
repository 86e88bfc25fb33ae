-- ===== src/Catalog/Desk.antt =====
-- The catalogue as the operator meets it (frontend/src/app/firmware/page.tsx): the form of the upload
-- and the two dialogs together, with their calls of the control plane, under any sequence of clicks,
-- inputs and answers.
pub mod Locks
pub mod Asked
pub mod Orderly
use ota_robot_system.Base.{
  ℕ, ◌+◌, ◌-◌, String, Bool, true, false, not, Option, none, some, List, [], ◌∷◌, ltb, nat_eq,
  if◌then◌else◌, Out, concat,
}
use ota_robot_system.Types.{FirmwareVersion}
use ota_robot_system.Types.Reply.{Reply, resolved, rejected}
use ota_robot_system.Types.Telemetry.{get_error_message}
use ota_robot_system.Catalog.{Catalog, File, choose_file, load_settle, upload_start, upload_settle}
use ota_robot_system.Catalog.Dialogs.{
  open_edit_modal, close_edit, update_start, update_settle, open_delete, close_delete, delete_start,
  delete_settle,
}
use ota_robot_system.Catalog.View.{set_version, set_release_notes, set_edit_version, set_edit_notes}

-- Of one kind of call: those without an answer, and the loads of the catalogue that are awaited
-- after a good answer.
pub record Calls : Type 0 where
  pub calling : ℕ
  pub reloading : ℕ

abbrev pub quiet : Calls
quiet = record { calling = 0; reloading = 0 }

pub record Desk : Type 0 where
  pub catalog : Catalog
  pub uploads : Calls
  pub updates : Calls
  pub removals : Calls
  -- what was sent, last one first: a file with its version and notes; an id with version and
  -- notes; an id
  pub uploaded : List (File × String × String)
  pub updated : List (String × String × String)
  pub removed : List String

abbrev pub begin : Catalog → Desk
begin c = record {
  catalog = c;
  uploads = quiet;
  updates = quiet;
  removals = quiet;
  uploaded = [];
  updated = [];
  removed = [];
}

-- A change of the page that makes no call.
pub data Edit : Type 0 where
  chooses_file : List File → Edit
  types_version types_notes types_edit_version types_edit_notes : String → Edit
  opens_edit opens_delete : FirmwareVersion → Edit
  closes_edit closes_delete : Edit
  loads : Reply (Option (List FirmwareVersion)) → Edit

unfoldable pub edit : Edit → Catalog → Catalog
edit (chooses_file fs) c = choose_file fs c
edit (types_version v) c = set_version v c
edit (types_notes n) c = set_release_notes n c
edit (types_edit_version v) c = set_edit_version v c
edit (types_edit_notes n) c = set_edit_notes n c
edit (opens_edit fw) c = open_edit_modal fw c
edit (opens_delete fw) c = open_delete fw c
edit closes_edit c = close_edit c
edit closes_delete c = close_delete c
edit (loads r) c = load_settle r c

pub data Event : Type 0 where
  edits : Edit → Event
  publishes saves confirms : Event
  -- the answer to an upload, to a change and to a removal, each with the version of its text
  upload_replies update_replies delete_replies : String → Reply (Unit {0}) → Event
  -- the catalogue that is loaded after a change and after a removal
  update_reloads delete_reloads : Reply (Option (List FirmwareVersion)) → Event

pub one_more : Calls → Calls
one_more c = record c { calling = c.calling + 1 }

send_upload : Option (File × String × String) → Catalog → Desk → Desk
unfolding one_more
send_upload none c s = record s { catalog = c }
send_upload (some p) c s = record s {
  catalog = c;
  uploaded = p ∷ s.uploaded;
  uploads = one_more s.uploads;
}

-- `handleUpload`, of a button that is locked during an upload.
unfoldable pub publish : Desk → Desk
unfolding send_upload
publish s =
    if s.catalog.is_uploading
    then s
    else send_upload (upload_start s.catalog).0 (upload_start s.catalog).1.state s

send_update : Option (String × String × String) → Catalog → Desk → Desk
unfolding one_more
send_update none c s = record s { catalog = c }
send_update (some p) c s = record s {
  catalog = c;
  updated = p ∷ s.updated;
  updates = one_more s.updates;
}

-- `handleUpdate`.
unfoldable pub save : Desk → Desk
unfolding send_update
save s =
    if s.catalog.is_updating
    then s
    else send_update (update_start s.catalog).0 (update_start s.catalog).1.state s

send_removal : Option String → Catalog → Desk → Desk
unfolding one_more
send_removal none c s = record s { catalog = c }
send_removal (some id) c s = record s {
  catalog = c;
  removed = id ∷ s.removed;
  removals = one_more s.removals;
}

-- `handleDelete`.
unfoldable pub confirm : Desk → Desk
unfolding send_removal
confirm s =
    if s.catalog.is_deleting
    then s
    else send_removal (delete_start s.catalog).0 (delete_start s.catalog).1 s

-- An answer to a call that waits for one; after a good one the catalogue is loaded again, or not.
pub answered : Calls → Calls
answered c = record c { calling = c.calling - 1 }

pub awaited : Calls → Calls
awaited c = record { calling = c.calling - 1; reloading = c.reloading + 1 }

pub reloaded : Calls → Calls
reloaded c = record c { reloading = c.reloading - 1 }

unfoldable pub upload_answer : String → Reply (Unit {0}) → Desk → Desk
unfolding answered
upload_answer v r s =
    if ltb 0 s.uploads.calling
    then record s { catalog = (upload_settle v r s.catalog).state; uploads = answered s.uploads }
    else s

-- The rest of `handleUpdate` up to the load that it awaits: the button stays locked until then.
update_answered : String → Reply (Unit {0}) → Desk → Desk
unfolding answered awaited
update_answered v (resolved u) s = record s {
  catalog = record (update_settle (λ c. c) v (resolved u) s.catalog).state {
    is_updating = s.catalog.is_updating;
  };
  updates = awaited s.updates;
}
update_answered v (rejected e) s = record s {
  catalog = (update_settle (λ c. c) v (rejected e) s.catalog).state;
  updates = answered s.updates;
}

unfoldable pub update_answer : String → Reply (Unit {0}) → Desk → Desk
unfolding update_answered
update_answer v r s = if ltb 0 s.updates.calling then update_answered v r s else s

unfoldable pub update_reload : Reply (Option (List FirmwareVersion)) → Desk → Desk
unfolding reloaded
update_reload r s =
    if ltb 0 s.updates.reloading
    then record s {
      catalog = record (load_settle r s.catalog) { is_updating = false };
      updates = reloaded s.updates;
    }
    else s

-- The rest of `handleDelete`, in the same two parts.
delete_answered : String → Reply (Unit {0}) → Desk → Desk
unfolding answered awaited
delete_answered v (resolved u) s = record s {
  catalog = record (delete_settle (λ c. c) v (resolved u) s.catalog).state {
    is_deleting = s.catalog.is_deleting;
  };
  removals = awaited s.removals;
}
delete_answered v (rejected e) s = record s {
  catalog = (delete_settle (λ c. c) v (rejected e) s.catalog).state;
  removals = answered s.removals;
}

unfoldable pub delete_answer : String → Reply (Unit {0}) → Desk → Desk
unfolding delete_answered
delete_answer v r s = if ltb 0 s.removals.calling then delete_answered v r s else s

unfoldable pub delete_reload : Reply (Option (List FirmwareVersion)) → Desk → Desk
unfolding reloaded
delete_reload r s =
    if ltb 0 s.removals.reloading
    then record s {
      catalog = record (load_settle r s.catalog) { is_deleting = false };
      removals = reloaded s.removals;
    }
    else s

unfoldable pub step : Desk → Event → Desk
unfolding edit publish save confirm upload_answer update_answer update_reload delete_answer
    delete_reload
step s (edits e) = record s { catalog = edit e s.catalog }
step s publishes = publish s
step s saves = save s
step s confirms = confirm s
step s (upload_replies v r) = upload_answer v r s
step s (update_replies v r) = update_answer v r s
step s (delete_replies v r) = delete_answer v r s
step s (update_reloads r) = update_reload r s
step s (delete_reloads r) = delete_reload r s

unfoldable pub steps : Desk → List Event → Desk
unfolding step
steps s [] = s
steps s (e ∷ es) = steps (step s e) es
