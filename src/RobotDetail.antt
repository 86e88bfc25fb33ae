-- ===== src/RobotDetail.antt =====
-- The dialog of one robot (frontend/src/components/RobotDetailModal.tsx): what it derives from the
-- robot and its telemetry, the interlock of the launch button, what it shows, and the removal.
pub mod Interlock
pub mod Removal
pub mod Decommission
pub mod View
pub mod Card
pub mod Link
pub mod Examples
use ota_robot_system.Base.{
  ℤ, pos, negsuc, leb_int, String, Bool, true, false, not, ◌&&◌, ◌||◌, Option, none, some, truthy,
  or_else, get_or, codes, to_lower_case, contains, ◌==◌, string_eq, if◌then◌else◌,
}
use ota_robot_system.Types.{Device, DeviceStatus, online, offline, updating, error, is_online}
use ota_robot_system.Types.Telemetry.{DeviceTelemetry, Reading, number, not_number}

-- `d.status === "updating"`.
abbrev pub is_updating : Device → Bool
is_updating d = elim d.status [ online ↦ false | offline ↦ false | updating ↦ true | error ↦ false ]

unfoldable pub is_agv : Device → Bool
is_agv d =
    contains (to_lower_case d.hw_model) (codes "agv")
    || contains (to_lower_case d.id) (codes "agv")
    || contains (to_lower_case d.name) (codes "agv")

-- A number, or `null` for anything else.
reading : Option Reading → Option ℤ
reading none = none
reading (some (number n)) = some n
reading (some not_number) = none

-- `telemetry?.p`, of a property.
abbrev pub field {ℓ} :
    {A : Type ℓ} → (DeviceTelemetry → Option A) → Option DeviceTelemetry → Option A
field p none = none
field p (some t) = p t

unfoldable pub battery_level : Device → Option DeviceTelemetry → Option ℤ
unfolding reading
battery_level d t = if is_online d then reading (field (λ u. u.battery_level) t) else none

unfoldable pub is_charging : Device → Option DeviceTelemetry → Bool
is_charging d t = is_online d && get_or (field (λ u. u.is_charging) t) false

unfoldable pub network_rssi : Device → Option DeviceTelemetry → ℤ
network_rssi d t =
    get_or (field (λ u. u.network_rssi) t) (if is_online d then negsuc 59 else negsuc 98)

unfoldable pub network_bandwidth : Device → Option DeviceTelemetry → String
network_bandwidth d t = or_else (get_or (field (λ u. u.network_bandwidth) t) "") (
    if is_online d
    then if is_agv d then "54 Mbps (Wi-Fi 802.11ac)" else "100 Mbps (Gigabit Ethernet)"
    else "Disconnected (0 bps)")

unfoldable pub activity : Device → Option DeviceTelemetry → String
activity d t =
    or_else (get_or (field (λ u. u.activity) t) "") (if is_online d then "idle" else "offline")

unfoldable pub is_busy : Device → Option DeviceTelemetry → Bool
is_busy d t = is_online d && (activity d t == "running_program" || activity d t == "operating")

unfoldable pub is_idle : Device → Option DeviceTelemetry → Bool
is_idle d t = is_online d && not (is_busy d t) && not (is_updating d)

-- `batteryLevel !== null && batteryLevel >= 50`.
unfoldable pub charged : Option ℤ → Bool
charged none = false
charged (some n) = leb_int (pos 50) n

unfoldable pub battery_ok : Device → Option DeviceTelemetry → Bool
unfolding charged
battery_ok d t = not (is_agv d) || charged (battery_level d t)

unfoldable pub can_deploy : Device → Option DeviceTelemetry → Bool
unfolding is_idle battery_ok
can_deploy d t = is_online d && is_idle d t && not (is_updating d) && battery_ok d t

pub data Signal : Type 0 where
  offline_signal excellent good fair weak : Signal

unfoldable pub get_signal_strength : Device → ℤ → Signal
get_signal_strength d rssi =
    if not (is_online d)
    then offline_signal
    else if leb_int (negsuc 59) rssi
    then excellent
    else if leb_int (negsuc 69) rssi
    then good
    else if leb_int (negsuc 79) rssi
    then fair
    else weak
