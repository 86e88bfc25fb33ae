-- ===== src/ControlPlane/Manager/Decisions.antt =====
-- What a report or a request makes of a rollout's row, on every branch.
use mathlib.Core.Path.{subst}
use ota_robot_system.Base.{
  List, ◌≡◌, ◌≢◌, refl, ◌∙◌, ap, String, false, Option, none, some, ◌++◌, string_eq, nat_eq,
}
use ota_robot_system.Types.{
  Deployment, DeploymentStatus, pending, running, completed, failed, rolled_back,
}
use ota_robot_system.ControlPlane.Store.{
  Command, Store, get_deployment, find_deployment, with_status, update_deployment_status,
  list_deployment_devices,
}
use ota_robot_system.ControlPlane.Manager.{is_rolled_back, roll_back, execute_rollback}
use ota_robot_system.ControlPlane.Manager.Back.{SentBack, SentBack-rollbacks}
use ota_robot_system.ControlPlane.Manager.Rows.{
  id-find_deployment, find_deployment-change, rollbacks, revert-deployments, revert-commands,
}

pub roll_back-row :
    (d : Deployment) (reason : String) (s : Store)
    → get_deployment d.id s ≡ some d
    → is_rolled_back d.status ≡ false
    → get_deployment d.id (roll_back (some d) reason s).0 ≡ some (with_status rolled_back d)
unfolding roll_back update_deployment_status
roll_back-row d reason s g h =
    let t = update_deployment_status d.id rolled_back s in
    rw h (
      ap (find_deployment d.id) (revert-deployments reason (list_deployment_devices d.id t) t)
      ∙ find_deployment-change d.id (with_status rolled_back) s.deployments d (λ c. refl) g)

roll_back-commands :
    (d : Deployment) (reason : String) (s : Store)
    → is_rolled_back d.status ≡ false
    → (roll_back (some d) reason s).0.commands
      ≡ s.commands ++ rollbacks reason (list_deployment_devices d.id s)
unfolding roll_back update_deployment_status
roll_back-commands d reason s h =
    let t = update_deployment_status d.id rolled_back s in
    rw h (revert-commands reason (list_deployment_devices d.id t) t)

roll_back-again :
    (o : Option Deployment) (d : Deployment) (again : String) (t : Store)
    → o ≡ some (with_status rolled_back d)
    → roll_back o again t ≡ (t, none)
unfolding roll_back
roll_back-again o d again t e = rw e refl

-- A request for the rollback of a rollout, and what it leaves.
RolledBack : (id reason again : String) (d : Deployment) (s : Store) → Type 0
RolledBack id reason again d s =
    let t = (execute_rollback id reason s).0 in
    (get_deployment id t ≡ some (with_status rolled_back d))
    × ((cs : List (String × Command)) × (t.commands ≡ s.commands ++ cs)
        × SentBack reason (list_deployment_devices id s) cs)
    × (execute_rollback id again t ≡ (t, none))

RolledBack-found :
    (d : Deployment) (reason again : String) (s : Store)
    → get_deployment d.id s ≡ some d
    → is_rolled_back d.status ≡ false
    → RolledBack d.id reason again d s
unfolding RolledBack execute_rollback
RolledBack-found d reason again s g h =
    let t = (roll_back (some d) reason s).0 in
    let row = roll_back-row d reason s g h in
    let us = list_deployment_devices d.id s in
    rw g (
      row,
      (rollbacks reason us, roll_back-commands d reason s h, SentBack-rollbacks reason us),
      roll_back-again (get_deployment d.id t) d again t row,
    )

not_rolled_back : (st : DeploymentStatus) → st ≢ rolled_back → is_rolled_back st ≡ false
not_rolled_back rolled_back h = absurd (h refl)
not_rolled_back pending h = refl
not_rolled_back running h = refl
not_rolled_back completed h = refl
not_rolled_back failed h = refl

pub execute_rollback-commands :
    (id reason : String) (d : Deployment) (s : Store)
    → get_deployment id s ≡ some d
    → d.status ≢ rolled_back
    → (execute_rollback id reason s).0.commands
      ≡ s.commands ++ rollbacks reason (list_deployment_devices id s)
unfolding execute_rollback
execute_rollback-commands id reason d s g h = rw g (
    subst
      (λ i.
        (roll_back (some d) reason s).0.commands
        ≡ s.commands ++ rollbacks reason (list_deployment_devices i s))
      (id-find_deployment id s.deployments d g)
      (roll_back-commands d reason s (not_rolled_back d.status h)))

-- A rollback that is asked for, of a rollout that is not rolled back: its row says so, each of its
-- robots is sent the rollback to the version that its row records as the one before, or to 1.0.0 if
-- none or an empty one is recorded, in the order of the rows, and a second request changes nothing.
pub execute_rollback_lem :
    (id reason again : String) (d : Deployment) (s : Store)
    → get_deployment id s ≡ some d
    → d.status ≢ rolled_back
    → let t = (execute_rollback id reason s).0 in
      (get_deployment id t ≡ some (with_status rolled_back d))
      × ((cs : List (String × Command)) × (t.commands ≡ s.commands ++ cs)
          × SentBack reason (list_deployment_devices id s) cs)
      × (execute_rollback id again t ≡ (t, none))
unfolding RolledBack
execute_rollback_lem id reason again d s g h =
    let e = id-find_deployment id s.deployments d g in
    subst (λ i. RolledBack i reason again d s) e
      (RolledBack-found d reason again s (ap (λ i. get_deployment i s) e ∙ g)
        (not_rolled_back d.status h))
