-- ===== src/Session/View.antt =====
-- What the provider of the session and the login page show (frontend/src/context/AuthContext.tsx,
-- frontend/src/app/login/page.tsx).
use ota_robot_system.Base.{String, Bool, Option, none, some, truthy, if◌then◌else◌}
use ota_robot_system.Session.{Session, show_loading_overlay, can_render_children}
use ota_robot_system.Session.Login.{LoginForm}

-- Whether the page is rendered, and whether the overlay lies over it.
pub record Screen : Type 0 where
  pub page : Bool
  pub overlay : Bool

unfoldable pub screen : Session → Screen
screen s = record { page = can_render_children s; overlay = show_loading_overlay s }

unfoldable pub set_username : String → LoginForm → LoginForm
set_username v f = record f { username = v }

unfoldable pub set_password : String → LoginForm → LoginForm
set_password v f = record f { password = v }

-- The alert above the form.
unfoldable pub alert_text : Option String → Option String
alert_text none = none
alert_text (some e) = if truthy e then some e else none

-- The button of the form and whether it is locked.
unfoldable pub submit_button : LoginForm → String × Bool
submit_button f = (if f.loading then "Authenticating..." else "Access Dashboard", f.loading)
