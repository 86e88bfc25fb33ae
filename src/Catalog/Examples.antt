-- ===== src/Catalog/Examples.antt =====
-- The catalogue at work, and the theorems about it at concrete inputs.
use ota_robot_system.Base.{
  List, All, ◌≤◌, ◌≡◌, refl, String, true, false, none, some, [], ◌∷◌, trim, arith, eq_iff, toast,
  callback, info,
}
use ota_robot_system.Types.{FirmwareVersion}
use ota_robot_system.Types.Telemetry.{error_object, get_error_message}
use ota_robot_system.Types.Reply.{resolved, rejected}
use ota_robot_system.Catalog.{
  Catalog, File, initial, choose_file, upload_start, upload_settle, upload_message, uploaded,
  copy_checksum,
}
use ota_robot_system.Catalog.Upload.{upload_settle-upload_start}
use ota_robot_system.Catalog.Dialogs.{
  open_edit_modal, close_edit, update_start, update_settle, open_delete, close_delete,
  delete_settle, open_delete-delete_settle,
}
use ota_robot_system.Catalog.Desk.{
  begin, Event, edits, chooses_file, types_version, publishes, upload_replies, opens_edit,
  types_edit_version, saves, update_replies, edit, publish, save, upload_answer, update_answer,
  step, steps,
}
use ota_robot_system.Catalog.Desk.Locks.{IsLocked}
use ota_robot_system.Catalog.Desk.Asked.{IsVersion}
use ota_robot_system.Catalog.Desk.Orderly.{steps-begin-IsOrderly}
use ota_robot_system.Catalog.View.{unsigned, row, set_version, set_edit_version}

abbrev release : String → FirmwareVersion
release id = record {
  id = id;
  version = "1.1.0";
  file_size = 2048;
  storage_key = "fw-1.bin";
  is_active = true;
  uploaded_by = none;
  created_at = "2025-01-01T00:00:00Z";
  sha256_checksum = "0123456789abcdef0123";
  ecdsa_signature = none;
  release_notes = none;
}

abbrev image : File
image = record { name = "arm.bin"; size = 2048 }

abbrev filled : Catalog
filled = record initial { file = some image; version = " 1.2.0 "; release_notes = "motor limits " }

copy_checksum-text :
    (copy_checksum (release "fw-1").sha256_checksum "fw-1" initial).effects
    ≡ callback "navigator.clipboard.writeText"
      ∷ toast "Checksum Copied" "SHA-256 digest (0123456789abcdef...) copied to clipboard" info 2500
      ∷ []
unfolding copy_checksum
copy_checksum-text = refl

upload_settle-upload_start_example :
    let go = (upload_start filled).1.state in
    let good = (upload_settle " 1.2.0 " (resolved tt) go).state in
    let bad = (upload_settle " 1.2.0 " (rejected (error_object "Failed to fetch")) go).state in
    ((upload_start filled).0 ≡ some (image, trim " 1.2.0 ", trim "motor limits "))
    × (go.is_uploading ≡ true)
    × (good ≡ record filled {
      file = none;
      version = "";
      release_notes = "";
      is_uploading = false;
      upload_error = none;
      upload_success = some (uploaded " 1.2.0 ");
    })
    × (bad ≡ record filled {
      is_uploading = false;
      upload_error = some (
          upload_message (
            get_error_message (error_object "Failed to fetch") "Failed to upload firmware binary"));
      upload_success = none;
    })
unfolding trim
upload_settle-upload_start_example =
    upload_settle-upload_start filled image (error_object "Failed to fetch") refl
      (λ e. ground (arith, eq_iff "1.2.0" ""))

abbrev sent_version : String
sent_version = "1.2.0"

open_delete-delete_settle_example :
    let refused =
      close_delete
        (delete_settle (λ t. t) "1.1.0" (rejected (error_object "in use")) initial).state in
    ((open_delete (release "fw-2") refused).delete_error
      ≡ some (get_error_message (error_object "in use") "Failed to delete firmware"))
    × ((open_edit_modal (release "fw-2") (
          close_edit
            (update_settle
              (λ t. t)
              "1.1.0"
              (rejected (error_object "in use"))
              initial).state)).update_error
        ≡ none)
open_delete-delete_settle_example =
    open_delete-delete_settle (λ t. t) "1.1.0" (error_object "in use") initial (release "fw-2")

abbrev editing : Catalog
editing = open_edit_modal (release "fw-1") initial

abbrev reload : Catalog → Catalog
reload t = record t { firmwares = release "fw-1" ∷ []; loading = false; load_error = none }

-- A release without a signature, whose checksum was copied.
row-copied : row (λ d. "1/1/2025") (some "fw-1") (release "fw-1") ≡ record {
  version = "v1.1.0";
  ecdsa = unsigned;
  checksum = "0123456789abcdef...";
  copied = true;
  notes = "—";
  released = "1/1/2025";
  deploy_href = "/deploy?firmware=fw-1";
}
unfolding row
row-copied = refl

-- A release is published by two clicks, and then its version is changed.
abbrev work : List Event
work =
    edits (chooses_file (image ∷ []))
    ∷ edits (types_version " 1.2.0 ")
    ∷ publishes
    ∷ publishes
    ∷ upload_replies " 1.2.0 " (resolved tt)
    ∷ edits (opens_edit (release "fw-1"))
    ∷ edits (types_edit_version "1.2.1")
    ∷ saves
    ∷ update_replies "1.2.1" (resolved tt)
    ∷ saves
    ∷ []

steps-begin-work :
    ((steps (begin initial) work).uploaded ≡ (image, "1.2.0", "") ∷ [])
    × ((steps (begin initial) work).updated ≡ ("fw-1", "1.2.1", "") ∷ [])
unfolding steps step publish save edit choose_file upload_start update_start upload_answer
    upload_settle update_answer update_settle set_version set_edit_version open_edit_modal trim
steps-begin-work = (refl, refl)

steps-begin-IsOrderly_example :
    let s = steps (begin initial) work in
    ((s.uploads.calling ≤ 1) × (s.updates.calling ≤ 1) × (s.removals.calling ≤ 1))
    × (IsLocked s.catalog.is_uploading s.uploads
        × IsLocked s.catalog.is_updating s.updates
        × IsLocked s.catalog.is_deleting s.removals)
    × All (λ p. IsVersion p.1) s.uploaded
    × All (λ p. IsVersion p.1) s.updated
steps-begin-IsOrderly_example = steps-begin-IsOrderly work
