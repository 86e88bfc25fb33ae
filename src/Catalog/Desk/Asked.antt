-- ===== src/Catalog/Desk/Asked.antt =====
-- What the operator asks for in the catalogue keeps its calls in order.
use ota_robot_system.Base.{
  ◌≡◌, ◌≢◌, refl, String, Bool, true, false, Option, none, some, nat_eq, All, Bool-cases, inl, inr,
  if◌then◌else◌, trim, truthy, truthy_iff, trim-trim, string_eq,
}
use ota_robot_system.Types.{FirmwareVersion}
use ota_robot_system.Catalog.{File, start_upload, upload_start}
use ota_robot_system.Catalog.Dialogs.{start_update, update_start, start_delete, delete_start}
use ota_robot_system.Catalog.Desk.{
  Desk, Edit, edit, send_upload, publish, send_update, save, send_removal, confirm,
}
use ota_robot_system.Catalog.Desk.Locks.{IsLocked, edit-locks, one_more-IsLocked}

-- A version as it is sent: no white space around it, and not empty.
abbrev pub IsVersion : String → Type 0
IsVersion v = (trim v ≡ v) × (v ≢ "")

pub record IsOrderly (s : Desk) : Type 0 where
  pub uploads : IsLocked s.catalog.is_uploading s.uploads
  pub updates : IsLocked s.catalog.is_updating s.updates
  pub removals : IsLocked s.catalog.is_deleting s.removals
  pub published : All (λ p. IsVersion p.1) s.uploaded
  pub changed : All (λ p. IsVersion p.1) s.updated

IsVersion-trim : (v : String) → truthy (trim v) ≡ true → IsVersion (trim v)
IsVersion-trim v h = (trim-trim v, (truthy_iff (trim v)).0 h)

-- If both branches of a test are orderly, it is.
pub either :
    (b : Bool) {x y : Desk}
    → (b ≡ true → IsOrderly x)
    → (b ≡ false → IsOrderly y)
    → IsOrderly (if b then x else y)
either true f g = f refl
either false f g = g refl

module _ (s : Desk) (h : IsOrderly s) where
  upload-IsOrderly :
      (o : Option File)
      → s.catalog.is_uploading ≡ false
      → IsOrderly (send_upload (start_upload o s.catalog).0 (start_upload o s.catalog).1.state s)
  unfolding send_upload start_upload
  upload-IsOrderly none l = record {
    uploads = h.uploads;
    updates = h.updates;
    removals = h.removals;
    published = h.published;
    changed = h.changed;
  }
  upload-IsOrderly (some f) l = elim (Bool-cases (truthy (trim s.catalog.version))) [
    | inl t ↦ rw t (record {
      uploads = one_more-IsLocked s.catalog.is_uploading s.uploads h.uploads l;
      updates = h.updates;
      removals = h.removals;
      published = (IsVersion-trim s.catalog.version t, h.published);
      changed = h.changed;
    })
    | inr t ↦ rw t (record {
      uploads = h.uploads;
      updates = h.updates;
      removals = h.removals;
      published = h.published;
      changed = h.changed;
    })
  ]

  update-IsOrderly :
      (o : Option FirmwareVersion)
      → s.catalog.is_updating ≡ false
      → IsOrderly (send_update (start_update o s.catalog).0 (start_update o s.catalog).1.state s)
  unfolding send_update start_update
  update-IsOrderly none l = record {
    uploads = h.uploads;
    updates = h.updates;
    removals = h.removals;
    published = h.published;
    changed = h.changed;
  }
  update-IsOrderly (some f) l = elim (Bool-cases (truthy (trim s.catalog.edit_version))) [
    | inl t ↦ rw t (record {
      uploads = h.uploads;
      updates = one_more-IsLocked s.catalog.is_updating s.updates h.updates l;
      removals = h.removals;
      published = h.published;
      changed = (IsVersion-trim s.catalog.edit_version t, h.changed);
    })
    | inr t ↦ rw t (record {
      uploads = h.uploads;
      updates = h.updates;
      removals = h.removals;
      published = h.published;
      changed = h.changed;
    })
  ]

  removal-IsOrderly :
      (o : Option FirmwareVersion)
      → s.catalog.is_deleting ≡ false
      → IsOrderly (send_removal (start_delete o s.catalog).0 (start_delete o s.catalog).1 s)
  unfolding send_removal start_delete
  removal-IsOrderly none l = record {
    uploads = h.uploads;
    updates = h.updates;
    removals = h.removals;
    published = h.published;
    changed = h.changed;
  }
  removal-IsOrderly (some f) l = record {
    uploads = h.uploads;
    updates = h.updates;
    removals = one_more-IsLocked s.catalog.is_deleting s.removals h.removals l;
    published = h.published;
    changed = h.changed;
  }

  pub edit-IsOrderly : (e : Edit) → IsOrderly (record s { catalog = edit e s.catalog })
  edit-IsOrderly e =
      let (u, p, d) = edit-locks e s.catalog in
      record {
        uploads = rw u h.uploads;
        updates = rw p h.updates;
        removals = rw d h.removals;
        published = h.published;
        changed = h.changed;
      }

  pub publish-IsOrderly : IsOrderly (publish s)
  unfolding publish upload_start
  publish-IsOrderly =
      either s.catalog.is_uploading (λ l. h) (λ l. upload-IsOrderly s.catalog.file l)

  pub save-IsOrderly : IsOrderly (save s)
  unfolding save update_start
  save-IsOrderly =
      either s.catalog.is_updating (λ l. h) (λ l. update-IsOrderly s.catalog.editing_fw l)

  pub confirm-IsOrderly : IsOrderly (confirm s)
  unfolding confirm delete_start
  confirm-IsOrderly =
      either s.catalog.is_deleting (λ l. h) (λ l. removal-IsOrderly s.catalog.deleting_fw l)
