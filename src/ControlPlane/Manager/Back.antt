-- ===== src/ControlPlane/Manager/Back.antt =====
-- The commands that send robots back, described by what their rows record.
use ota_robot_system.Base.{
  ◌≡◌, ◌≢◌, sym, String, Option, none, some, List, [], ◌∷◌, truthy, truthy_iff, eq_iff, string_eq,
  arith, Bool-cases, inl, inr,
}
use mathlib.Core.Path.{subst}
use ota_robot_system.ControlPlane.Store.{UnitRow, Command, rollback}
use ota_robot_system.ControlPlane.Manager.{previous_version}
use ota_robot_system.ControlPlane.Manager.Rows.{rollbacks}

-- The version to go back to: the one that is recorded, or 1.0.0 where none is, or an empty one.
pub data GoesBack : Option String → String → Type 0 where
  unknown : GoesBack none "1.0.0"
  blank : GoesBack (some "") "1.0.0"
  recorded : (v : String) → v ≢ "" → GoesBack (some v) v

-- One command for each row, to its robot, in the order of the rows.
pub data SentBack (reason : String) : List UnitRow → List (String × Command) → Type 0 where
  none_left : SentBack reason [] []
  next :
      (u : UnitRow) (v : String) (us : List UnitRow) (cs : List (String × Command))
      → GoesBack u.previous_version v
      → SentBack reason us cs
      → SentBack reason (u ∷ us) ((u.device_id, rollback v reason) ∷ cs)

pub GoesBack-previous_version : (o : Option String) → GoesBack o (previous_version o)
unfolding previous_version
GoesBack-previous_version none = unknown
GoesBack-previous_version (some v) = elim (Bool-cases (truthy v)) [
  | inl e ↦ rw e (recorded v ((truthy_iff v).0 e))
  | inr e ↦
      let q : v ≡ "" = ground (arith, e, eq_iff v "") in
      rw e (subst (λ x. GoesBack (some x) "1.0.0") (sym q) blank)
]

pub SentBack-rollbacks :
    (reason : String) (us : List UnitRow) → SentBack reason us (rollbacks reason us)
SentBack-rollbacks reason [] = none_left
SentBack-rollbacks reason (u ∷ us) =
    next u (previous_version u.previous_version) us (rollbacks reason us)
      (GoesBack-previous_version u.previous_version) (SentBack-rollbacks reason us)
