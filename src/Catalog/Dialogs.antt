-- ===== src/Catalog/Dialogs.antt =====
-- The dialogs of the catalogue that change and remove a release.
use ota_robot_system.Base.{
  ◌≡◌, refl, String, true, false, not, Option, none, some, [], ◌∷◌, trim, truthy, or_else, get_or,
  if◌then◌else◌, concat, Out, only, toast, success, error, warning, default_duration,
}
use ota_robot_system.Types.{FirmwareVersion}
use ota_robot_system.Types.Telemetry.{Thrown, get_error_message}
use ota_robot_system.Types.Reply.{Reply, resolved, rejected}
use ota_robot_system.Catalog.{Catalog}

unfoldable pub open_edit_modal : FirmwareVersion → Catalog → Catalog
open_edit_modal fw s = record s {
  editing_fw = some fw;
  edit_version = fw.version;
  edit_notes = or_else (get_or fw.release_notes "") "";
  update_error = none;
}

unfoldable pub close_edit : Catalog → Catalog
close_edit s = record s { editing_fw = none }

unfoldable pub start_update :
    Option FirmwareVersion → Catalog → Option (String × String × String) × Out Catalog
start_update none s = (none, only s)
start_update (some fw) s =
    if not (truthy (trim s.edit_version))
    then (
      none,
      record {
        state = record s { update_error = some "Version tag is required" };
        effects =
            toast "Validation Error" "Version tag cannot be empty" warning default_duration ∷ [];
      },
    )
    else (
      some (fw.id, trim s.edit_version, trim s.edit_notes),
      only (record s { is_updating = true; update_error = none }),
    )

-- `handleUpdate` up to the call: the id, the version and the notes to send, or nothing.
unfoldable pub update_start : Catalog → Option (String × String × String) × Out Catalog
unfolding start_update
update_start s = start_update s.editing_fw s

-- The rest of `handleUpdate`; `reload` is what the awaited load of the catalogue changes.
unfoldable pub update_settle :
    (Catalog → Catalog) → String → Reply (Unit {0}) → Catalog → Out Catalog
update_settle reload version (resolved u) s = record {
  state =
      record (reload (record s {
        upload_success = some (concat "Firmware v" (concat version " updated successfully"));
        editing_fw = none;
      })) { is_updating = false };
  effects =
      toast "Firmware Updated"
        (concat "Firmware v" (concat version " release metadata saved successfully")) success
        default_duration
      ∷ [];
}
update_settle reload version (rejected e) s =
    let msg = get_error_message e "Failed to update firmware" in
    record {
      state = record s { update_error = some msg; is_updating = false };
      effects = toast "Update Failed" msg error default_duration ∷ [];
    }

-- The button that opens the question before a removal.
unfoldable pub open_delete : FirmwareVersion → Catalog → Catalog
open_delete fw s = record s { deleting_fw = some fw }

unfoldable pub close_delete : Catalog → Catalog
close_delete s = record s { deleting_fw = none }

unfoldable pub start_delete : Option FirmwareVersion → Catalog → Option String × Catalog
start_delete none s = (none, s)
start_delete (some fw) s = (some fw.id, record s { is_deleting = true; delete_error = none })

-- `handleDelete` up to the call: the id to send, or nothing.
unfoldable pub delete_start : Catalog → Option String × Catalog
unfolding start_delete
delete_start s = start_delete s.deleting_fw s

unfoldable pub delete_settle :
    (Catalog → Catalog) → String → Reply (Unit {0}) → Catalog → Out Catalog
delete_settle reload version (resolved u) s = record {
  state =
      record (reload (record s {
        upload_success = some (concat "Firmware v" (concat version " deleted successfully"));
        deleting_fw = none;
      })) { is_deleting = false };
  effects =
      toast "Firmware Deleted"
        (concat "Firmware release v" (concat version " removed from active catalog")) success
        default_duration
      ∷ [];
}
delete_settle reload version (rejected e) s =
    let msg = get_error_message e "Failed to delete firmware" in
    record {
      state = record s { delete_error = some msg; is_deleting = false };
      effects = toast "Deletion Failed" msg error default_duration ∷ [];
    }

-- After a refused removal was closed, the question about any other release opens with the error of
-- that removal; the dialog that changes a release opens without an old error.
pub open_delete-delete_settle :
    (reload : Catalog → Catalog) (v : String) (e : Thrown) (s : Catalog) (fw : FirmwareVersion)
    → let refused = close_delete (delete_settle reload v (rejected e) s).state in
      ((open_delete fw refused).delete_error
        ≡ some (get_error_message e "Failed to delete firmware"))
      × ((open_edit_modal fw
            (close_edit (update_settle reload v (rejected e) s).state)).update_error
          ≡ none)
unfolding open_delete close_delete delete_settle open_edit_modal
open_delete-delete_settle reload v e s fw = (refl, refl)

-- A change of one release that ends well after the dialog of another one was opened closes that
-- dialog, if loading the catalogue does not open it again.
pub update_settle-open_edit_modal :
    (reload : Catalog → Catalog) (v : String) (s : Catalog) (other : FirmwareVersion)
    → ((t : Catalog) → (reload t).editing_fw ≡ t.editing_fw)
    → let waiting = open_edit_modal other (close_edit (update_start s).1.state) in
      (waiting.editing_fw ≡ some other)
      × ((update_settle reload v (resolved tt) waiting).state.editing_fw ≡ none)
unfolding open_edit_modal update_settle
update_settle-open_edit_modal reload v s other keeps = (refl, keeps _)
