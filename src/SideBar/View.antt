-- ===== src/SideBar/View.antt =====
-- What the side bar shows of the user, of the control plane and of its own menu
-- (frontend/src/components/Sidebar.tsx). A text to show may be a list of code points.
use ota_robot_system.Base.{
  ℕ, String, Bool, true, false, not, Option, none, some, List, map, take, codes, to_upper_case,
  if◌then◌else◌,
}
use ota_robot_system.Types.{User, Role}
use ota_robot_system.SideBar.{SideBar, nav_items, label, href, is_active}

-- The corner of the user: nothing is known before the page is mounted.
pub data Profile : Type 0 where
  placeholder sign_in : Profile
  -- the initials, the name and the role
  signed_in : List ℕ → String → Role → Profile

profile_of : Option User → Profile
profile_of none = sign_in
profile_of (some u) = signed_in (to_upper_case (take 2 (codes u.username))) u.username u.role

unfoldable pub profile : Option User → SideBar → Profile
unfolding profile_of
profile user s = if not s.mounted then placeholder else profile_of user

-- "Backend API".
unfoldable pub health_label : Option Bool → String
health_label none = "Checking..."
health_label (some true) = "ONLINE"
health_label (some false) = "OFFLINE"

-- A link: its text, its address, and whether it is lit.
pub record Link : Type 0 where
  pub text : String
  pub address : String
  pub lit : Bool

unfoldable pub links : SideBar → List Link
links s =
    map (λ i. record { text = label i; address = href i; lit = is_active s.pathname (href i) })
      nav_items

-- The class that moves the bar in or out on a small screen, and the button that covers the page.
unfoldable pub menu_class : SideBar → String
menu_class s = if s.is_mobile_open then "translate-x-0" else "-translate-x-full"
