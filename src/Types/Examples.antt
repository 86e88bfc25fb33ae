-- ===== src/Types/Examples.antt =====
-- Telemetry of a robot read back, at concrete data.
use ota_robot_system.Base.{
  ◌≡◌, refl, String, Option, none, some, trim, starts_with, ◌==◌, string_eq, arith, eq_iff,
  if◌then◌else◌, pos,
}
use ota_robot_system.Types.{object, text}
use ota_robot_system.Types.Telemetry.{DeviceTelemetry, number}
use ota_robot_system.Types.Parse.{parse_device_telemetry}
use ota_robot_system.Types.RoundTrip.{parse_device_telemetry-btoa-stringify}

-- A battery of 80, and its texts.
abbrev report : DeviceTelemetry
report = record {
  battery_level = some (number (pos 80));
  is_charging = none;
  network_rssi = none;
  network_bandwidth = none;
  activity = none;
  power_mode = none;
  fsm_state = none;
}

abbrev json : String
json = "{\"battery_level\":80}"

abbrev base64 : String
base64 = "eyJiYXR0ZXJ5X2xldmVsIjo4MH0="

-- Decoders that know these texts.
abbrev json_parse : String → Option DeviceTelemetry
json_parse s = if s == json then some report else none

abbrev atob : String → Option String
atob s = if s == base64 then some json else none

-- The telemetry with white space after its text.
parse_device_telemetry-btoa-stringify_example :
    (parse_device_telemetry json_parse atob (object report) ≡ some report)
    × (trim "{\"battery_level\":80} " ≡ json
        → parse_device_telemetry json_parse atob (text "{\"battery_level\":80} ") ≡ some report)
    × (trim "{\"battery_level\":80} " ≡ base64
        → parse_device_telemetry json_parse atob (text "{\"battery_level\":80} ") ≡ some report)
unfolding starts_with
parse_device_telemetry-btoa-stringify_example =
    parse_device_telemetry-btoa-stringify json_parse atob (λ t. json) (λ s. base64) report
      "{\"battery_level\":80} " refl refl refl refl (ground (arith, eq_iff base64 ""))
