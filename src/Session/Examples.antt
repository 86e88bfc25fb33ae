-- ===== src/Session/Examples.antt =====
-- Sessions at work, and the theorems about them at concrete inputs.
use ota_robot_system.Base.{
  ◌≡◌, refl, true, false, not, none, some, List, [], ◌∷◌, is_some, ◌==◌, string_eq, arith, eq_iff,
  inl,
}
use ota_robot_system.Types.{User, operator}
use ota_robot_system.Types.Telemetry.{error_object, other_value}
use ota_robot_system.Types.Reply.{resolved, rejected}
use ota_robot_system.Session.{
  Session, initial, redirect, follow, can_render_children, Event, mounts, restored, logged_in,
  logged_out, visits, step, steps,
}
use ota_robot_system.Session.Guard.{redirect-follow, steps-logged_out, restored-logged_in}
use ota_robot_system.Session.Login.{LoginForm, blank, submit_start, submit_start-blank}
use ota_robot_system.Session.{show_loading_overlay, can_render_children}
use ota_robot_system.Session.View.{screen}

abbrev ana : User
ana = record { id = "u1"; username = "ana"; email = none; role = operator }

-- The deployments are visited, and no session is found.
abbrev visitor : Session
visitor = steps (initial "/deployments") (mounts ∷ restored (rejected other_value) ∷ [])

visitor-path : (follow (redirect visitor) visitor).pathname ≡ "/login"
unfolding follow redirect steps
visitor-path = refl

redirect-follow_example :
    (redirect (follow (redirect visitor) visitor) ≡ [])
    × (is_some (follow (redirect visitor) visitor).user
        ≡ not ((follow (redirect visitor) visitor).pathname == "/login"))
    × (can_render_children (follow (redirect visitor) visitor) ≡ true)
unfolding steps
redirect-follow_example = redirect-follow visitor refl refl

abbrev user : Session
user = steps (initial "/login") (mounts ∷ logged_in (resolved ana) ∷ [])

abbrev later : List Event
later = logged_in (rejected (error_object "invalid credentials")) ∷ visits "/firmware" ∷ []

steps-logged_out_example :
    can_render_children (steps (step user (logged_out (rejected other_value))) later) ≡ false
unfolding steps
steps-logged_out_example =
    steps-logged_out user (rejected other_value) later (tt, (tt, tt))
      (λ e. ground (arith, eq_iff "/firmware" "/login"))

restored-logged_in_example :
    ((steps (initial "/login") (logged_in (resolved ana) ∷ [])).user ≡ some ana)
    × ((steps
          (initial "/login")
          (logged_in (resolved ana) ∷ restored (rejected other_value) ∷ [])).user
        ≡ none)
restored-logged_in_example = restored-logged_in (initial "/login") ana other_value

abbrev filled : LoginForm
filled = record { username = "ana"; password = "secret"; error_text = none; loading = false }

abbrev sending : LoginForm
sending = (submit_start filled).1

submit_start-blank_example :
    ((submit_start blank).0 ≡ none)
    × ((submit_start blank).1
        ≡ record blank { error_text = some "Please enter both username and password." })
submit_start-blank_example = submit_start-blank blank (inl refl)

-- Before the session is known the page is covered.
screen-unknown :
    screen (record (initial "/deployments") { mounted = true })
    ≡ record { page = false; overlay = true }
unfolding screen show_loading_overlay can_render_children
screen-unknown = refl
