-- ===== src/ControlPlane/Messages.antt =====
-- The messages of robots at the control plane (`handleProgress` and `handleError` of
-- backend/internal/mqtt/client.go), which are given to the rollout manager in the order of their
-- arrival. The errors of the manager are logged only.
pub mod Updates
pub mod Examples
use ota_robot_system.Base.{String, List, [], ◌∷◌}
use ota_robot_system.Agent.{Report, progress, error}
use ota_robot_system.ControlPlane.Store.{Store}
use ota_robot_system.ControlPlane.Manager.{handle_device_progress, handle_device_error}

-- A message that could be read, from a robot. The reason is the text of a rollback, if one follows.
pub handle_report : (reason device_id : String) → Report → Store → Store
handle_report reason device_id (progress n status) s =
    (handle_device_progress device_id status n s).0
handle_report reason device_id (error message) s =
    (handle_device_error reason device_id message s).0

unfoldable pub handle_reports : (reason device_id : String) → List Report → Store → Store
unfolding handle_report
handle_reports reason device_id [] s = s
handle_reports reason device_id (r ∷ rs) s =
    handle_reports reason device_id rs (handle_report reason device_id r s)
