-- ===== src/Types/Telemetry.antt =====
-- What a robot reports of itself, and `getErrorMessage`, of frontend/src/lib/types.ts.
use ota_robot_system.Base.{ℤ, Bool, String, Option, truthy, if◌then◌else◌}

-- A property that should be a number: `typeof v === "number"` tells.
pub data Reading : Type 0 where
  number : ℤ → Reading
  not_number : Reading

-- The properties that the dashboard reads; each may be missing.
pub record DeviceTelemetry : Type 0 where
  pub battery_level : Option Reading
  pub is_charging : Option Bool
  pub network_rssi : Option ℤ
  pub network_bandwidth : Option String
  pub activity : Option String
  pub power_mode : Option String
  pub fsm_state : Option String

-- What a `catch` receives: an `Error` with its message, or any other value.
pub data Thrown : Type 0 where
  error_object : String → Thrown
  other_value : Thrown

unfoldable pub get_error_message : Thrown → String → String
get_error_message (error_object message) fallback = if truthy message then message else fallback
get_error_message other_value fallback = fallback
