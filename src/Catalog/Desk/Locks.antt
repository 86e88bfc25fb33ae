-- ===== src/Catalog/Desk/Locks.antt =====
-- The locks of the buttons of the catalogue, against the calls that they stand for.
use ota_robot_system.Base.{
  ◌+◌, ◌≡◌, ◌≤◌, refl, Bool, true, false, [], ◌∷◌, ltb, nat_eq, arith, Bool-cases, inl, inr,
  string_eq,
}
use ota_robot_system.Types.Reply.{resolved, rejected}
use ota_robot_system.Catalog.{Catalog, choose_file, load_settle}
use ota_robot_system.Catalog.Dialogs.{open_edit_modal, close_edit, open_delete, close_delete}
use ota_robot_system.Catalog.View.{set_version, set_release_notes, set_edit_version, set_edit_notes}
use ota_robot_system.Catalog.Desk.{
  Calls, quiet, Edit, chooses_file, types_version, types_notes, types_edit_version,
  types_edit_notes, opens_edit, opens_delete, closes_edit, closes_delete, loads, edit, one_more,
  answered, awaited, reloaded,
}

-- A lock is set exactly while a call of its kind or the load after it is on its way.
pub record IsLocked (lock : Bool) (c : Calls) : Type 0 where
  pub busy : lock ≡ true → c.calling + c.reloading ≡ 1
  pub idle : lock ≡ false → c.calling + c.reloading ≡ 0

pub IsLocked-quiet : IsLocked false quiet
IsLocked-quiet = record { busy = λ e. cc; idle = λ e. refl }

module _ (lock : Bool) (c : Calls) (h : IsLocked lock c) where
  pub one_more-IsLocked : lock ≡ false → IsLocked true (one_more c)
  unfolding one_more
  one_more-IsLocked l = ground arith

  pub answered-IsLocked : ltb 0 c.calling ≡ true → IsLocked false (answered c)
  unfolding answered
  answered-IsLocked l = elim (Bool-cases lock) [
    | inl b ↦ ground (arith, b)
    | inr b ↦ ground (arith, b)
  ]

  pub awaited-IsLocked : ltb 0 c.calling ≡ true → IsLocked lock (awaited c)
  unfolding awaited
  awaited-IsLocked l = elim (Bool-cases lock) [
    | inl b ↦ ground (arith, b)
    | inr b ↦ ground (arith, b)
  ]

  pub reloaded-IsLocked : ltb 0 c.reloading ≡ true → IsLocked false (reloaded c)
  unfolding reloaded
  reloaded-IsLocked l = elim (Bool-cases lock) [
    | inl b ↦ ground (arith, b)
    | inr b ↦ ground (arith, b)
  ]

-- At most one call is on its way under a lock.
pub IsLocked-calling : (lock : Bool) (c : Calls) → IsLocked lock c → c.calling ≤ 1
IsLocked-calling true c h = omega (arith, h.busy refl)
IsLocked-calling false c h = omega (arith, h.idle refl)

pub edit-locks :
    (e : Edit) (c : Catalog)
    → ((edit e c).is_uploading ≡ c.is_uploading)
      × ((edit e c).is_updating ≡ c.is_updating)
      × ((edit e c).is_deleting ≡ c.is_deleting)
unfolding edit choose_file load_settle set_version set_release_notes set_edit_version set_edit_notes
    open_edit_modal close_edit open_delete close_delete
edit-locks (chooses_file []) c = (refl, refl, refl)
edit-locks (chooses_file (f ∷ fs)) c = (refl, refl, refl)
edit-locks (loads (resolved a)) c = (refl, refl, refl)
edit-locks (loads (rejected e)) c = (refl, refl, refl)
edit-locks (types_version v) c = (refl, refl, refl)
edit-locks (types_notes v) c = (refl, refl, refl)
edit-locks (types_edit_version v) c = (refl, refl, refl)
edit-locks (types_edit_notes v) c = (refl, refl, refl)
edit-locks (opens_edit fw) c = (refl, refl, refl)
edit-locks (opens_delete fw) c = (refl, refl, refl)
edit-locks closes_edit c = (refl, refl, refl)
edit-locks closes_delete c = (refl, refl, refl)
