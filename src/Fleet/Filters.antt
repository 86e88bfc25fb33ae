-- ===== src/Fleet/Filters.antt =====
-- What the filters of the overview let through, and the page on which it stands.
use ota_robot_system.Base.{
  ℕ, zero, suc, ◌≡◌, ◌≢◌, ◌<◌, ◌-◌, ◌*◌, ◌+◌, refl, ap, String, Bool, true, ◌||◌, List, [], ◌∷◌,
  filter, length, take, to_lower_case, contains, ◌==◌, string_eq, if◌then◌else◌, arith, eq_iff,
}
use native.Mathlib.Nat.{suc-ne-zero}
use ota_robot_system.Types.{Device, DeviceStatus, online, offline, updating, status_text}
use ota_robot_system.Pagination.{page_rows}
use ota_robot_system.Fleet.{
  Fleet, filtered_devices, matches, matches_search, passes, set_field, Field, by_search, by_status,
  by_model, by_factory, reset, reset_disabled, stats, has_status, paginated_devices,
}

filter-all :
    (p : Device → Bool) → ((d : Device) → p d ≡ true) → (ds : List Device) → filter p ds ≡ ds
filter-all p h [] = refl
filter-all p h (d ∷ ds) = rw (h d) (ap (d ∷◌) (filter-all p h ds))

contains-nil : (s : List ℕ) → contains s [] ≡ true
unfolding contains
contains-nil [] = refl
contains-nil (c ∷ s) = refl

matches-default :
    (s : Fleet) (d : Device)
    → s.search ≡ ""
    → s.status_filter ≡ "all"
    → s.model_filter ≡ "all"
    → s.factory_filter ≡ "all"
    → matches s d ≡ true
unfolding matches matches_search passes to_lower_case
matches-default s d e f g h = rw (e, f, g, h, contains-nil (to_lower_case d.id))

-- The button that resets the filters shows the whole fleet, and it is disabled only where the
-- whole fleet is shown already.
pub filtered_devices-reset :
    (s : Fleet)
    → (filtered_devices (reset s) ≡ s.devices)
      × (reset_disabled s ≡ true → filtered_devices s ≡ s.devices)
      × (reset_disabled (reset s) ≡ true)
unfolding filtered_devices reset reset_disabled
filtered_devices-reset s = (
  filter-all (matches (reset s)) (λ d. matches-default (reset s) d refl refl refl refl) s.devices,
  λ h.
      filter-all (matches s)
        (λ d.
          matches-default s d (ground (arith, eq_iff s.search ""))
            (ground (arith, eq_iff s.status_filter "all"))
            (ground (arith, eq_iff s.model_filter "all"))
            (ground (arith, eq_iff s.factory_filter "all")))
        s.devices,
  refl,
)

first_page : (size : ℕ) (rows : List Device) → 0 < size → rows ≢ [] → page_rows 1 size rows ≢ []
unfolding page_rows
first_page size [] h n = absurd (n refl)
first_page zero (d ∷ rows) h n = absurd (omega arith)
first_page (suc k) (d ∷ rows) h n =
    let e : 1 * suc k ≡ suc k = omega arith in
    let z : (1 - 1) * suc k ≡ 0 = omega arith in
    let w : suc k - 0 ≡ suc k = omega arith in
    rw (e, z, w) (λ q. suc-ne-zero (length (take k rows)) (ap length q))

-- After a change of any field of the filter bar the table shows a robot if one passes the filters.
pub paginated_devices-set_field :
    (s : Fleet) (f : Field) (v : String)
    → 0 < s.page_size
    → filtered_devices (set_field f v s) ≢ []
    → paginated_devices (set_field f v s) ≢ []
unfolding set_field
paginated_devices-set_field s by_search v h n =
    first_page s.page_size (filtered_devices (set_field by_search v s)) h n
paginated_devices-set_field s by_status v h n =
    first_page s.page_size (filtered_devices (set_field by_status v s)) h n
paginated_devices-set_field s by_model v h n =
    first_page s.page_size (filtered_devices (set_field by_model v s)) h n
paginated_devices-set_field s by_factory v h n =
    first_page s.page_size (filtered_devices (set_field by_factory v s)) h n

abbrev is_offline : Device → Bool
is_offline d = has_status offline d || has_status DeviceStatus.error d

one_more :
    (st : DeviceStatus) (d : Device) (a b c ds : List Device)
    → length a + length b + length c ≡ length ds
    → let t = status_text st in
      length (if t == "online" then d ∷ a else a)
        + length (if t == "updating" then d ∷ b else b)
        + length (if t == "offline" || t == "error" then d ∷ c else c)
      ≡ suc (length ds)
one_more online d a b c ds h = omega (arith, h)
one_more offline d a b c ds h = omega (arith, h)
one_more updating d a b c ds h = omega (arith, h)
one_more DeviceStatus.error d a b c ds h = omega (arith, h)

status-counts :
    (ds : List Device)
    → length (filter (has_status online) ds)
        + length (filter (has_status updating) ds)
        + length (filter is_offline ds)
      ≡ length ds
status-counts [] = refl
status-counts (d ∷ ds) =
    one_more d.status d (filter (has_status online) ds) (filter (has_status updating) ds)
      (filter is_offline ds) ds (status-counts ds)

-- Each robot is counted once: the three numbers beside the total add up to it.
pub stats-total :
    (s : Fleet)
    → (stats s).online_count + (stats s).updating_count + (stats s).offline_count ≡ (stats s).total
unfolding stats
stats-total s = status-counts s.devices
