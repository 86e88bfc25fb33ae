-- ===== src/ControlPlane/Manager/Progress.antt =====
-- A report of a robot that is not at its end only writes its row.
use ota_robot_system.Base.{ℕ, ◌≡◌, refl, String, false, none, some, ◌==◌, string_eq, nat_eq}
use ota_robot_system.ControlPlane.Store.{
  Store, UnitRow, get_active_deployment_device_by_device, update_deployment_device_status,
}
use ota_robot_system.ControlPlane.Manager.{progress_of, handle_device_progress}

pub handle_device_progress-underway :
    (device_id status : String) (n : ℕ) (u : UnitRow) (s : Store)
    → get_active_deployment_device_by_device device_id s ≡ some u
    → (status == "success") ≡ false
    → handle_device_progress device_id status n s
      ≡ (update_deployment_device_status u.deployment_id device_id status n none s, none)
unfolding handle_device_progress progress_of
handle_device_progress-underway device_id status n u s a h = rw (a, h) refl
