-- ===== src/SideBar/Examples.antt =====
-- The side bar at work, and the theorem about its links at a concrete page.
use ota_robot_system.Base.{◌≡◌, refl, true, false, [], ◌∷◌, map, starts_with}
use ota_robot_system.SideBar.{href, nav_items, is_active}
use ota_robot_system.Base.{none, some, codes, to_upper_case}
use ota_robot_system.Types.{operator}
use ota_robot_system.SideBar.{SideBar}
use ota_robot_system.SideBar.View.{profile, signed_in}

-- The page of a rollout is below the history, and not below the launcher.
lit : map (λ i. is_active "/deployments/d-1" (href i)) nav_items ≡ false ∷ false ∷ false ∷ true ∷ []
unfolding is_active starts_with
lit = refl

abbrev bar : SideBar
bar = record { pathname = "/"; is_backend_healthy = none; mounted = true; is_mobile_open = false }

profile-ana :
    profile (some (record { id = "u-1"; username = "ana"; email = none; role = operator })) bar
    ≡ signed_in (codes "AN") "ana" operator
unfolding profile to_upper_case
profile-ana = refl
