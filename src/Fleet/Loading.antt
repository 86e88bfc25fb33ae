-- ===== src/Fleet/Loading.antt =====
-- How loading the fleet and removing offline robots end.
use ota_robot_system.Base.{
  ℕ, ◌≡◌, ◌+◌, refl, String, Bool, true, false, none, some, List, [], ◌∷◌, filter, length,
  if◌then◌else◌, ◌==◌, ◌||◌, string_eq, arith,
}
use ota_robot_system.Types.{Device, DeviceStatus, online, offline, updating, status_text}
use ota_robot_system.Types.Telemetry.{Thrown}
use ota_robot_system.Types.Reply.{resolved, rejected}
use ota_robot_system.Fleet.{
  Fleet, load_start, load_settle, prune_control, confirmation, stats, has_status,
}

-- A load that fails keeps the rows and the time of the last good one and says that they are old;
-- one that succeeds replaces them and takes the message away. In both cases the page is then
-- neither loading nor refreshing, whoever asked for the load.
pub load_settle-load_start :
    (silent : Bool) (s : Fleet) (now : String) (e : Thrown) (rows : List Device)
    → let lost = load_settle now (rejected e) (load_start silent s) in
      let got = load_settle now (resolved (some rows)) (load_start silent s) in
      ((lost.devices ≡ s.devices) × (lost.last_updated ≡ s.last_updated))
      × (lost.load_error
          ≡ some "Live fleet data is unavailable. Showing the last successful snapshot.")
      × ((got.devices ≡ rows) × (got.last_updated ≡ some now) × (got.load_error ≡ none))
      × ((lost.loading ≡ false) × (lost.is_refreshing ≡ false))
      × ((got.loading ≡ false) × (got.is_refreshing ≡ false))
unfolding load_settle load_start
load_settle-load_start true s now e rows =
    ((refl, refl), refl, (refl, refl, refl), (refl, refl), (refl, refl))
load_settle-load_start false s now e rows =
    ((refl, refl), refl, (refl, refl, refl), (refl, refl), (refl, refl))

abbrev pub is_in_error : Device → Bool
is_in_error d = has_status DeviceStatus.error d

one_more :
    (st : DeviceStatus) (d : Device) (a b c : List Device)
    → length a ≡ length b + length c
    → let t = status_text st in
      length (if t == "offline" || t == "error" then d ∷ a else a)
      ≡ length (if t == "offline" then d ∷ b else b) + length (if t == "error" then d ∷ c else c)
one_more online d a b c h = h
one_more offline d a b c h = omega (arith, h)
one_more updating d a b c h = h
one_more DeviceStatus.error d a b c h = omega (arith, h)

either_count :
    (ds : List Device)
    → length (filter (λ d. has_status offline d || has_status DeviceStatus.error d) ds)
      ≡ length (filter (has_status offline) ds) + length (filter is_in_error ds)
either_count [] = refl
either_count (d ∷ ds) =
    one_more d.status d (filter (λ x. has_status offline x || has_status DeviceStatus.error x) ds)
      (filter (has_status offline) ds) (filter is_in_error ds) (either_count ds)

-- The question before the removal gives the number of the robots that are offline, with the
-- robots that report an error added to it.
pub prune_control-confirmation :
    (s : Fleet) (n : ℕ)
    → prune_control s ≡ confirmation n
    → n ≡ length (filter (has_status offline) s.devices) + length (filter is_in_error s.devices)
unfolding prune_control stats
prune_control-confirmation s n h = ground (arith, either_count s.devices)
