-- ===== src/Badge/Examples.antt =====
-- Badges of statuses that the control plane sends, and the table of the history.
use ota_robot_system.Base.{some, ◌≡◌, refl, true, false, codes, to_lower_case, to_upper_case, none}
use ota_robot_system.Types.{Deployment, rolled_back, canary}
use ota_robot_system.Types.Telemetry.{other_value}
use ota_robot_system.Types.Reply.{resolved, rejected}
use ota_robot_system.Badge.Rows.{row}
use ota_robot_system.Badge.{
  results, primary, secure, muted, status_badge, initial, load_settle, table, empty_row,
}

status_badge-updating :
    status_badge "updating" ≡ record { tone = primary; animated = true; label = codes "Updating" }
unfolding status_badge to_lower_case to_upper_case
status_badge-updating = refl

status_badge-rolled_back :
    status_badge "rolled_back"
    ≡ record { tone = secure; animated = false; label = codes "Rolled Back" }
unfolding status_badge to_lower_case to_upper_case
status_badge-rolled_back = refl

status_badge-offline :
    status_badge "offline" ≡ record { tone = muted; animated = false; label = codes "Offline" }
unfolding status_badge to_lower_case to_upper_case
status_badge-offline = refl

-- A load that fails on an empty history shows no rows, like one that finds none.
table-load_settle :
    (table (load_settle (rejected other_value) initial) ≡ empty_row)
    × (table (load_settle (resolved none) initial) ≡ empty_row)
unfolding table load_settle
table-load_settle = (refl, refl)

abbrev lost : Deployment
lost = record {
  id = "3f2a8c1e-9b7d-4e21";
  firmware_version_id = "fw-1";
  firmware_version = none;
  strategy = canary;
  status = rolled_back;
  canary_percentage = 20;
  current_phase = 1;
  total_devices = 12;
  success_count = 2;
  failure_count = 3;
  rollback_threshold = record { num = 5; den = 100 };
  created_by = "ana";
  created_at = "2025-01-01T00:00:00Z";
  started_at = none;
  completed_at = none;
}

row-lost : row (λ d. "1/1/2025") lost ≡ record {
  id = codes "3f2a8c1e-9b7d...";
  firmware = "-";
  strategy = canary;
  units = 12;
  outcome = record { succeeded = 2; failed = some 3 };
  status = record { tone = secure; animated = false; label = codes "Rolled Back" };
  created = "1/1/2025";
  monitor_href = "/deployments/3f2a8c1e-9b7d-4e21";
}
unfolding row results status_badge to_lower_case to_upper_case
row-lost = refl
