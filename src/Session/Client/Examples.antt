-- ===== src/Session/Client/Examples.antt =====
-- Sessions over the client at concrete inputs.
use ota_robot_system.Base.{
  ◌≡◌, refl, none, some, ap, is_some, List, [], ◌∷◌, map, arith, eq_iff, string_eq,
}
use ota_robot_system.Types.{User, operator}
use ota_robot_system.Api.{Request, Response, reply, body, no_json, refreshed, conclude}
use ota_robot_system.Session.{initial, can_render_children, step, steps}
use ota_robot_system.Session.Client.{Ask, opens, checks, goes, event_of}
use ota_robot_system.Session.Client.Named.{Named, steps-event_of-Named}
use ota_robot_system.Session.Client.Expired.{redirect-checked-ok}

abbrev ana : User
ana = record { id = "u1"; username = "ana"; email = none; role = operator }

-- The first request is refused, since the session has expired; the later ones are served.
abbrev renewed : List Request → Request → Response User
renewed [] r = reply 401 "401 Unauthorized" (no_json "no body")
renewed (q ∷ past) r = reply 200 "200 OK" (body (record { error = ""; value = ana }))

abbrev closed : List Request → Request → Response User
closed past r = reply 401 "401 Unauthorized" (no_json "no body")

-- The check finds an expired session, which is renewed; then another page is visited.
abbrev visit : List Ask
visit = opens ∷ checks [] ∷ goes "/firmware" ∷ []

steps-event_of-Named_example :
    (u : User) × ((steps (initial "/deploy") (map (event_of renewed (λ u. u)) visit)).user ≡ some u)
    × Named renewed (λ u. u) u
unfolding steps step event_of can_render_children refreshed conclude
steps-event_of-Named_example =
    let h =
      redirect-checked-ok renewed (λ u. u) [] "/deploy" "401 Unauthorized" (no_json "no body") ana
        refl refl refl (λ e. ground (arith, eq_iff "/deploy" "/login")) in
    steps-event_of-Named renewed (λ u. u) "/deploy" visit
      (λ e. ground (arith, eq_iff "/firmware" "/login")) (ap is_some h.0)
