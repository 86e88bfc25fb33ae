-- ===== src/ControlPlane/Manager/Rows.antt =====
-- What the queries give after a change of one rollout's row.
use ota_robot_system.Base.{
  ◌≡◌, refl, sym, ◌∙◌, ap, String, Bool, true, false, Option, none, some, List, [], ◌∷◌, ◌++◌, map,
  ◌==◌, string_eq, arith, eq_iff, if◌then◌else◌,
}
use mathlib.Core.List.{append_assoc, append-nil}
use ota_robot_system.Types.{FirmwareVersion, Deployment}
use ota_robot_system.ControlPlane.Store.{
  Store, UnitRow, Command, rollback, publish_command, find_deployment, change,
  update_device_version,
}
use ota_robot_system.ControlPlane.Manager.{set_version, previous_version, revert}

pub id-find_deployment :
    (id : String) (ds : List Deployment) (d : Deployment)
    → find_deployment id ds ≡ some d
    → d.id ≡ id
id-find_deployment id [] d h = cc
id-find_deployment id (c ∷ ds) d h = ground (arith, h, eq_iff c.id id, id-find_deployment id ds d)

changed-id :
    (b : Bool) (f : Deployment → Deployment) (c : Deployment)
    → (f c).id ≡ c.id
    → (if b then f c else c).id ≡ c.id
changed-id true f c h = h
changed-id false f c h = refl

picked :
    (b e : Bool) (f : Deployment → Deployment) (c d : Deployment) (o p : Option Deployment)
    → e ≡ b
    → (o ≡ some d → p ≡ some (f d))
    → (if b then some c else o) ≡ some d
    → (if e then some (if b then f c else c) else p) ≡ some (f d)
picked true true f c d o p q k h = cc
picked false false f c d o p q k h = k h
picked true false f c d o p q k h = cc
picked false true f c d o p q k h = cc

-- The row of the rollout that was changed.
pub find_deployment-change :
    (id : String) (f : Deployment → Deployment) (ds : List Deployment) (d : Deployment)
    → ((c : Deployment) → (f c).id ≡ c.id)
    → find_deployment id ds ≡ some d
    → find_deployment id (change id f ds) ≡ some (f d)
find_deployment-change id f [] d k h = cc
find_deployment-change id f (c ∷ ds) d k h =
    picked (c.id == id) ((if c.id == id then f c else c).id == id) f c d (find_deployment id ds)
      (find_deployment id (change id f ds)) (ap (λ i. i == id) (changed-id (c.id == id) f c (k c)))
      (find_deployment-change id f ds d k) h

-- The commands of a rollback.
abbrev pub rollbacks : String → List UnitRow → List (String × Command)
rollbacks reason us =
    map (λ u. (u.device_id, rollback (previous_version u.previous_version) reason)) us

pub revert-deployments :
    (reason : String) (us : List UnitRow) (s : Store)
    → (revert reason us s).deployments ≡ s.deployments
unfolding revert publish_command update_device_version
revert-deployments reason [] s = refl
revert-deployments reason (u ∷ us) s =
    let v = previous_version u.previous_version in
    revert-deployments reason us
      (update_device_version u.device_id v (publish_command u.device_id (rollback v reason) s))

pub revert-commands :
    (reason : String) (us : List UnitRow) (s : Store)
    → (revert reason us s).commands ≡ s.commands ++ rollbacks reason us
unfolding revert publish_command update_device_version
revert-commands reason [] s = sym (append-nil s.commands)
revert-commands reason (u ∷ us) s =
    let v = previous_version u.previous_version in
    revert-commands reason us
      (update_device_version u.device_id v (publish_command u.device_id (rollback v reason) s))
    ∙ append_assoc s.commands ((u.device_id, rollback v reason) ∷ []) (rollbacks reason us)

pub set_version-deployments :
    (id : String) (o : Option FirmwareVersion) (s : Store)
    → (set_version id o s).deployments ≡ s.deployments
unfolding set_version update_device_version
set_version-deployments id none s = refl
set_version-deployments id (some fw) s = refl
