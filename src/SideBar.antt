-- ===== src/SideBar.antt =====
-- The side bar (frontend/src/components/Sidebar.tsx): its state, its links, and which link is lit.
-- Its logout is in Session.
pub mod Links
pub mod View
pub mod Examples
use ota_robot_system.Base.{
  String, Bool, true, false, not, ◌&&◌, ◌||◌, Option, none, some, List, [], ◌∷◌, starts_with, ◌==◌,
  string_eq, concat,
}

pub record SideBar : Type 0 where
  pub pathname : String
  pub is_backend_healthy : Option Bool
  pub mounted : Bool
  pub is_mobile_open : Bool

-- `checkHealth`, when `getHealth` has ended.
unfoldable pub health_settle : Bool → SideBar → SideBar
health_settle ok s = record s { is_backend_healthy = some ok }

unfoldable pub set_mobile_open : Bool → SideBar → SideBar
set_mobile_open b s = record s { is_mobile_open = b }

-- A visit of another page, with the effect that closes the menu.
unfoldable pub visit : String → SideBar → SideBar
visit path s = record s { pathname = path; is_mobile_open = false }

-- The bar is not rendered on the login page.
unfoldable pub is_rendered : SideBar → Bool
is_rendered s = not (s.pathname == "/login")

pub data NavItem : Type 0 where
  fleet_overview firmware_catalog launch_rollout rollout_history : NavItem

abbrev pub label : NavItem → String
label fleet_overview = "Fleet Overview"
label firmware_catalog = "Firmware Catalog"
label launch_rollout = "Launch Rollout"
label rollout_history = "Rollout History"

abbrev pub href : NavItem → String
href fleet_overview = "/"
href firmware_catalog = "/firmware"
href launch_rollout = "/deploy"
href rollout_history = "/deployments"

abbrev pub nav_items : List NavItem
nav_items = fleet_overview ∷ firmware_catalog ∷ launch_rollout ∷ rollout_history ∷ []

unfoldable pub is_active : String → String → Bool
is_active pathname link =
    pathname == link || (not (link == "/") && starts_with pathname (concat link "/"))
