-- ===== src/Session.antt =====
-- The session (frontend/src/context/AuthContext.tsx), and the login page and the logout button
-- that use it (frontend/src/app/login/page.tsx, frontend/src/components/Sidebar.tsx). The calls
-- of the client and the navigation end at events of their own.
pub mod Guard
pub mod Login
pub mod Client
pub mod View
pub mod Examples
use ota_robot_system.Base.{
  String, Bool, true, false, not, ◌&&◌, ◌||◌, Option, none, some, List, [], ◌∷◌, ◌++◌, is_some,
  ◌==◌, string_eq, if◌then◌else◌, Out, only, Effect, toast, push, replace, open_window, alert,
  callback,
}
use ota_robot_system.Types.{User}
use ota_robot_system.Types.Reply.{Reply, resolved, rejected}

pub record Session : Type 0 where
  pub pathname : String
  pub mounted : Bool
  pub user : Option User
  pub is_loading : Bool

abbrev pub initial : String → Session
initial path = record { pathname = path; mounted = false; user = none; is_loading = true }

-- `restoreSession`, when `getMe` has ended.
unfoldable pub restore_settle : Reply User → Session → Session
restore_settle (resolved u) s = record s { user = some u; is_loading = false }
restore_settle (rejected e) s = record s { user = none; is_loading = false }

-- `login`, when the call has ended; a refusal is thrown on to the caller.
unfoldable pub login_settle : Reply User → Session → Session
login_settle (resolved u) s = record s { user = some u }
login_settle (rejected e) s = s

-- The `finally` of `logout`, whether the call was refused or not.
unfoldable pub logout_settle : Reply (Unit {0}) → Session → Out Session
logout_settle r s = record { state = record s { user = none }; effects = replace "/login" ∷ [] }

-- The effect that sends visitors to the login page and users away from it.
unfoldable pub redirect : Session → List Effect
redirect s =
    if not s.mounted || s.is_loading
    then []
    else (if not (is_some s.user) && not (s.pathname == "/login")
        then replace "/login" ∷ []
        else [])
      ++ (if is_some s.user && s.pathname == "/login" then replace "/" ∷ [] else [])

unfoldable pub show_loading_overlay : Session → Bool
show_loading_overlay s = s.mounted && s.is_loading && not (s.pathname == "/login")

unfoldable pub can_render_children : Session → Bool
can_render_children s = s.pathname == "/login" || is_some s.user

pub data Event : Type 0 where
  mounts : Event
  restored logged_in : Reply User → Event
  logged_out : Reply (Unit {0}) → Event
  visits : String → Event

unfoldable pub step : Session → Event → Session
unfolding restore_settle login_settle logout_settle
step s mounts = record s { mounted = true }
step s (restored r) = restore_settle r s
step s (logged_in r) = login_settle r s
step s (logged_out r) = (logout_settle r s).state
step s (visits path) = record s { pathname = path }

unfoldable pub steps : Session → List Event → Session
unfolding step
steps s [] = s
steps s (e ∷ es) = steps (step s e) es

-- Where the router goes for one effect.
visit : Effect → Session → Session
visit (toast title message kind duration) s = s
visit (push url) s = record s { pathname = url }
visit (replace url) s = record s { pathname = url }
visit (open_window url) s = s
visit (alert message) s = s
visit (callback name) s = s

unfoldable pub follow : List Effect → Session → Session
unfolding visit
follow [] s = s
follow (e ∷ es) s = follow es (visit e s)

-- `handleLogout` of the side bar: the navigation after the call is reached only if it was good.
unfoldable pub handle_logout : Reply (Unit {0}) → Session → Out Session
unfolding logout_settle
handle_logout (resolved u) s = record (logout_settle (resolved u) s) {
  effects = (logout_settle (resolved u) s).effects ++ push "/login" ∷ [];
}
handle_logout (rejected e) s = logout_settle (rejected e) s
