-- ===== src/RobotDetail/Card.antt =====
-- The battery card and the signal line of a robot's dialog.
use ota_robot_system.Base.{
  ℕ, ℤ, pos, negsuc, leb_int, ◌≤◌, ◌≡◌, refl, String, Bool, true, false, not, Option, none, some,
  leb, arith, if◌then◌else◌, truthy,
}
use ota_robot_system.Types.{Device, is_online}
use ota_robot_system.Types.Telemetry.{DeviceTelemetry, number}
use ota_robot_system.RobotDetail.{
  battery_level, is_charging, is_agv, can_deploy, Signal, offline_signal, excellent, good, fair,
  weak, get_signal_strength, network_rssi, field,
}
use ota_robot_system.RobotDetail.Interlock.{can_deploy_iff}

pub data Icon : Type 0 where
  battery battery_charging battery_warning battery_faded : Icon

pub data BarColor : Type 0 where
  success warning error : BarColor

-- The level as it is written, the width in percent and the colour.
pub record Bar : Type 0 where
  pub level : ℤ
  pub width : ℤ
  pub color : BarColor

pub record Card : Type 0 where
  pub icon : Icon
  pub power : String
  -- without a bar the card says that there are no telemetry data
  pub bar : Option Bar

-- `batteryLevel !== null && batteryLevel < 25`.
low : Option ℤ → Bool
low none = false
low (some n) = not (leb_int (pos 25) n)

unfoldable pub battery_icon : Device → Option DeviceTelemetry → Icon
unfolding low
battery_icon d t =
    if not (is_online d)
    then battery_faded
    else if is_charging d t
    then battery_charging
    else if low (battery_level d t)
    then battery_warning
    else battery

unfoldable pub power_label : Device → Option DeviceTelemetry → String
power_label d t =
    if not (is_online d)
    then "Offline (No Signal)"
    else if is_charging d t
    then "Charging via Dock"
    else "Discharging (On Battery)"

-- `Math.min(100, Math.max(5, n))`.
unfoldable pub bar_width : ℤ → ℤ
bar_width n =
    let wide = if leb_int (pos 5) n then n else pos 5 in
    if leb_int (pos 100) wide then pos 100 else wide

unfoldable pub bar_color : ℤ → BarColor
bar_color n = if leb_int (pos 60) n then success else if leb_int (pos 25) n then warning else error

bar_of : Option ℤ → Option Bar
unfolding bar_width bar_color
bar_of none = none
bar_of (some n) = some (record { level = n; width = bar_width n; color = bar_color n })

-- The card is there for an AGV only.
unfoldable pub battery_card : Device → Option DeviceTelemetry → Option Card
unfolding battery_icon power_label bar_of
battery_card d t =
    if is_agv d
    then some (record {
      icon = battery_icon d t;
      power = power_label d t;
      bar = if is_online d then bar_of (battery_level d t) else none;
    })
    else none

unfoldable pub signal_label : Signal → String
signal_label offline_signal = "Offline"
signal_label excellent = "Excellent"
signal_label good = "Good"
signal_label fair = "Fair"
signal_label weak = "Weak"

-- The strength and its word, or nothing where the line reads "Disconnected".
unfoldable pub signal_line : Device → Option DeviceTelemetry → Option (ℤ × String)
unfolding signal_label
signal_line d t =
    if is_online d
    then some (network_rssi d t, signal_label (get_signal_strength d (network_rssi d t)))
    else none

-- "Last Heartbeat". The writing of a time is the browser's.
unfoldable pub last_heartbeat : (String → String) → Device → String
last_heartbeat time d = elim d.last_seen [
  | none ↦ "No record"
  | some s ↦ if truthy s then time s else "No record"
]

-- The width lies in the bar, and is the level wherever the level is from 5 to 100.
abbrev pub Fits : ℤ → ℤ → Type 0
Fits n w =
    (m : ℕ) × (w ≡ pos m) × (5 ≤ m) × (m ≤ 100) × ((k : ℕ) → n ≡ pos k → 5 ≤ k → k ≤ 100 → k ≡ m)

bar_width-Fits : (n : ℤ) → Fits n (bar_width n)
unfolding bar_width
bar_width-Fits (negsuc k) = (5, refl, omega arith, omega arith, λ j e. cc)
bar_width-Fits (pos k) = (
  if leb 5 k then (if leb 100 k then 100 else k) else 5,
  ground arith,
  ground arith,
  ground arith,
  λ j e a b. ground (arith, e),
)

bar_of-Fits : (o : Option ℤ) (b : Bar) → bar_of o ≡ some b → Fits b.level b.width
unfolding bar_of
bar_of-Fits none b h = cc
bar_of-Fits (some n) b h =
    let l : b.level ≡ n = cc h in
    let w : b.width ≡ bar_width n = cc h in rw (l, w) (bar_width-Fits n)

-- Every bar of a battery card, whatever the robot reports: its width is from 5 to 100, and it is
-- the level where this is from 5 to 100.
pub battery_card-Fits :
    (d : Device) (t : Option DeviceTelemetry) (c : Card) (b : Bar)
    → battery_card d t ≡ some c
    → c.bar ≡ some b
    → Fits b.level b.width
unfolding battery_card
battery_card-Fits d t c b h k = bar_of-Fits (battery_level d t) b (ground (arith, h, k))

level_of :
    (d : Device) (t : Option DeviceTelemetry) (n : ℕ)
    → is_online d ≡ true
    → field (λ u. u.battery_level) t ≡ some (number (pos n))
    → battery_level d t ≡ some (pos n)
unfolding battery_level
level_of d t n o e = rw (o, e) refl

-- Where the launch to an AGV is offered, its card shows no warning: the level is a number of at
-- least 50, which the bar shows in green from 60 on and in yellow below, as wide as the level but
-- at most full, and the icon is that of a charged battery or of one that is charging.
pub battery_card-can_deploy :
    (d : Device) (t : Option DeviceTelemetry)
    → can_deploy d t ≡ true
    → is_agv d ≡ true
    → (n : ℕ) × (50 ≤ n)
      × (battery_card d t
          ≡ some (record {
            icon = if is_charging d t then battery_charging else battery;
            power = if is_charging d t then "Charging via Dock" else "Discharging (On Battery)";
            bar = some (record {
              level = pos n;
              width = pos (if leb 100 n then 100 else n);
              color = if leb 60 n then success else warning;
            });
          }))
unfolding battery_card battery_icon low power_label bar_of bar_width bar_color
battery_card-can_deploy d t h a =
    let (o, r, p, b) = (can_deploy_iff d t).0 h in
    let (n, e, fifty) = b a in
    let on : is_online d ≡ true = ground (arith, o) in
    (n, fifty, rw (a, on, level_of d t n on e) (ground arith))
