-- ===== src/Session/Client/Expired.antt =====
-- What becomes of a session that the control plane no longer accepts.
use ota_robot_system.Base.{
  ◌≡◌, ◌≢◌, refl, String, true, false, some, List, [], ◌∷◌, ◌++◌, map, string_eq, contains, arith,
  eq_iff, replace,
}
use ota_robot_system.Types.{User}
use ota_robot_system.Api.{
  Request, Response, reply, Parsed, ok, sent, refreshed, refresh_request, is_auth_mutation,
  conclude,
}
use ota_robot_system.Api.Retry.{fetch_json-unauthorized}
use ota_robot_system.Api.Requests.{request_of, get_me}
use ota_robot_system.Session.{Session, initial, redirect, can_render_children, step, steps}
use ota_robot_system.Session.Client.{opens, checks, reply_of, event_of}

module _ {ℓ} {A : Type ℓ} (serve : List Request → Request → Response A) (user_of : A → User)
    (past : List Request) (path text : String) (b : Parsed A) where
  abbrev pub me : Request
  me = request_of get_me

  -- The page at `path` after it was opened and its session was checked.
  abbrev pub checked : Session
  checked = steps (initial path) (map (event_of serve user_of) (opens ∷ checks past ∷ []))

  -- A visit of another page than the login page whose session check is answered by 401: if the
  -- refresh is refused too, the visitor is sent to the login page and sees nothing before.
  pub redirect-checked :
      serve past (sent me) ≡ reply 401 text b
      → refreshed (serve (past ++ sent me ∷ []) refresh_request) ≡ false
      → path ≢ "/login"
      → (redirect checked ≡ replace "/login" ∷ []) × (can_render_children checked ≡ false)
  unfolding redirect can_render_children steps step event_of reply_of request_of is_auth_mutation
      contains
  redirect-checked e r p =
      rw (fetch_json-unauthorized serve past me text b e refl, r)
        (ground (arith, p, eq_iff path "/login"), ground (arith, p, eq_iff path "/login"))

  -- If the refresh is good and the check is then answered with a user, that user stays on the page
  -- and sees it.
  pub redirect-checked-ok :
      (v : A)
      → serve past (sent me) ≡ reply 401 text b
      → refreshed (serve (past ++ sent me ∷ []) refresh_request) ≡ true
      → conclude (serve ((past ++ sent me ∷ []) ++ refresh_request ∷ []) (sent me)) ≡ ok v
      → path ≢ "/login"
      → (checked.user ≡ some (user_of v))
        × (redirect checked ≡ [])
        × (can_render_children checked ≡ true)
  unfolding redirect can_render_children steps step event_of reply_of request_of is_auth_mutation
      contains
  redirect-checked-ok v e r c p =
      rw (fetch_json-unauthorized serve past me text b e refl, r, c)
        (refl, ground (arith, p, eq_iff path "/login"), ground (arith, p, eq_iff path "/login"))
