-- ===== src/ControlPlane/Manager/Parts.antt =====
-- What no report changes of the parts that robots have in rollouts.
use ota_robot_system.Base.{
  ℕ, ◌≡◌, refl, ap, String, Bool, true, false, ◌&&◌, Option, List, [], ◌∷◌, map, ◌==◌, string_eq,
  if◌then◌else◌,
}
use ota_robot_system.ControlPlane.Store.{UnitRow}

-- What stays of the part of a robot: its rollout, the robot, and the version that it had before.
abbrev pub part : UnitRow → String × String × Option String
part u = (u.deployment_id, u.device_id, u.previous_version)

part-written :
    (b : Bool) (st : String) (n : ℕ) (m : Option String) (u : UnitRow)
    → part (if b then record u { status = st; progress = n; error_message = m } else u) ≡ part u
part-written true st n m u = refl
part-written false st n m u = refl

pub parts-written :
    (a b st : String) (n : ℕ) (m : Option String) (us : List UnitRow)
    → map part (
        map
          (λ u.
            if u.deployment_id == a && u.device_id == b
            then record u { status = st; progress = n; error_message = m }
            else u)
          us)
      ≡ map part us
parts-written a b st n m [] = refl
parts-written a b st n m (u ∷ us) =
    rw (part-written (u.deployment_id == a && u.device_id == b) st n m u)
      (ap (part u ∷◌) (parts-written a b st n m us))
