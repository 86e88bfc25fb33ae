-- ===== src/Session/Client/Named.antt =====
-- A page behind the login is shown only to a user that the control plane named.
use ota_robot_system.Base.{
  ◌≡◌, ◌≢◌, refl, String, true, Option, none, some, List, [], ◌∷◌, ◌⊎◌, inl, inr, is_some, map,
  string_eq, arith, eq_iff,
}
use ota_robot_system.Types.{User}
use ota_robot_system.Api.{Request, Response, Result, ok, err, fetch_json}
use ota_robot_system.Api.Retry.{Given, fetch_json-Given}
use ota_robot_system.Api.Requests.{ApiCall, request_of, get_me, login}
use ota_robot_system.Session.{
  Session, initial, can_render_children, restored, logged_in, step, steps,
}
use ota_robot_system.Session.Client.{
  Ask, opens, checks, logs_in, logs_out, goes, reply_of, event_of,
}

-- The two calls that answer with a user.
abbrev pub NamesUser : ApiCall → Type 0
NamesUser c = (c ≡ get_me) ⊎ ((payload : String) × (c ≡ login payload))

module _ {ℓ} {A : Type ℓ} (serve : List Request → Request → Response A) (user_of : A → User) where
  -- A user in a good answer of the control plane to one of them.
  abbrev pub Named : User → Type ℓ
  Named u = (c : ApiCall) × (v : A) × NamesUser c × Given serve (request_of c) v × (user_of v ≡ u)

  IsNamed : Option User → Type ℓ
  IsNamed o = (u : User) → o ≡ some u → Named u

  restored-IsNamed :
      (c : ApiCall) (s : Session) (r : Result A)
      → NamesUser c
      → ((v : A) → r ≡ ok v → Given serve (request_of c) v)
      → IsNamed (step s (restored (reply_of user_of r))).user
  unfolding step IsNamed reply_of
  restored-IsNamed c s (ok v) n g u e = (c, v, n, g v refl, ground arith)
  restored-IsNamed c s (err m) n g u e = cc

  logged_in-IsNamed :
      (c : ApiCall) (s : Session) (r : Result A)
      → NamesUser c
      → ((v : A) → r ≡ ok v → Given serve (request_of c) v)
      → IsNamed s.user
      → IsNamed (step s (logged_in (reply_of user_of r))).user
  unfolding step IsNamed reply_of
  logged_in-IsNamed c s (ok v) n g h u e = (c, v, n, g v refl, ground arith)
  logged_in-IsNamed c s (err m) n g h u e = h u e

  step-IsNamed :
      (s : Session) (a : Ask) → IsNamed s.user → IsNamed (step s (event_of serve user_of a)).user
  unfolding event_of step IsNamed
  step-IsNamed s opens h = h
  step-IsNamed s (checks past) h =
      restored-IsNamed get_me s (fetch_json serve past (request_of get_me)).0 (inl refl)
        (fetch_json-Given serve past (request_of get_me))
  step-IsNamed s (logs_in payload past) h =
      logged_in-IsNamed (login payload) s (fetch_json serve past (request_of (login payload))).0
        (inr (payload, refl)) (fetch_json-Given serve past (request_of (login payload))) h
  step-IsNamed s (logs_out past) h = λ u e. cc
  step-IsNamed s (goes path) h = h

  steps-IsNamed :
      (asks : List Ask) (s : Session)
      → IsNamed s.user
      → IsNamed (steps s (map (event_of serve user_of) asks)).user
  unfolding steps
  steps-IsNamed [] s h = h
  steps-IsNamed (a ∷ asks) s h =
      steps-IsNamed asks (step s (event_of serve user_of a)) (step-IsNamed s a h)

  known-IsNamed :
      (o : Option User) → IsNamed o → is_some o ≡ true → (u : User) × (o ≡ some u) × Named u
  unfolding IsNamed
  known-IsNamed none h e = cc
  known-IsNamed (some u) h e = (u, refl, h u refl)

  -- Whatever is called, visited and answered from the opening of the site on: where a page other
  -- than the login page is rendered, a user is known, and the control plane named that user in an
  -- answer with a good status to the check of the session or to a login.
  pub steps-event_of-Named :
      (path : String) (asks : List Ask)
      → let s = steps (initial path) (map (event_of serve user_of) asks) in
        s.pathname ≢ "/login"
        → can_render_children s ≡ true
        → (u : User) × (s.user ≡ some u) × Named u
  unfolding IsNamed can_render_children
  steps-event_of-Named path asks p r =
      let s = steps (initial path) (map (event_of serve user_of) asks) in
      known-IsNamed s.user (steps-IsNamed asks (initial path) (λ u e. cc))
        (ground (arith, r, p, eq_iff s.pathname "/login"))
