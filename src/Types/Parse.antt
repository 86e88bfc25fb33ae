-- ===== src/Types/Parse.antt =====
-- `parseDeviceTelemetry` of frontend/src/lib/types.ts. `JSON.parse` and `atob` are the browser's:
-- they are arguments, `none` where they throw.
use ota_robot_system.Base.{String, Option, none, some, truthy, trim, starts_with, if◌then◌else◌}
use ota_robot_system.Types.{Metadata, missing, object, text}
use ota_robot_system.Types.Telemetry.{DeviceTelemetry}

module _ (json_parse : String → Option DeviceTelemetry) (atob : String → Option String) where
  decoded : Option String → Option DeviceTelemetry
  decoded none = none
  decoded (some s) = json_parse s

  -- The inner `catch`, which parses the text as it is.
  rescue : String → Option DeviceTelemetry → Option DeviceTelemetry
  rescue s none = json_parse s
  rescue s (some t) = some t

  unfoldable pub parse_device_telemetry : Metadata → Option DeviceTelemetry
  unfolding decoded rescue
  parse_device_telemetry missing = none
  parse_device_telemetry (object t) = some t
  parse_device_telemetry (text s) =
      if truthy s
      then rescue s
          (if starts_with (trim s) "{" then json_parse (trim s) else decoded (atob (trim s)))
      else none
