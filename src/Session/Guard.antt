-- ===== src/Session/Guard.antt =====
-- Who sees the pages behind the login, and where the redirects lead.
use ota_robot_system.Base.{
  ◌≡◌, ◌≢◌, refl, String, true, false, not, Option, none, some, List, [], ◌∷◌, All, is_some, ◌==◌,
  string_eq, arith, eq_iff, Bool-cases, inl, inr,
}
use ota_robot_system.Types.{User}
use ota_robot_system.Types.Telemetry.{Thrown}
use ota_robot_system.Types.Reply.{Reply, resolved, rejected}
use ota_robot_system.Session.{
  Session, redirect, follow, can_render_children, Event, mounts, restored, logged_in, logged_out,
  visits, step, steps,
}

abbrev known : String → Option User → Session
known path u = record { pathname = path; mounted = true; user = u; is_loading = false }

known-follow :
    (path : String) (u : Option User)
    → let s = known path u in
      (redirect (follow (redirect s) s) ≡ [])
      × (is_some (follow (redirect s) s).user ≡ not ((follow (redirect s) s).pathname == "/login"))
      × (can_render_children (follow (redirect s) s) ≡ true)
unfolding redirect follow can_render_children
known-follow path none = elim (Bool-cases (path == "/login")) [
  | inl e ↦ rw e (rw e refl, rw e refl, rw e refl)
  | inr e ↦ rw e (refl, refl, refl)
]
known-follow path (some u) = elim (Bool-cases (path == "/login")) [
  | inl e ↦ rw e (refl, refl, refl)
  | inr e ↦ rw e (rw e refl, rw e refl, rw e refl)
]

-- When the session is known, the redirects lead to a page that asks for no other one: the login
-- page without a user, another page with one. The page is rendered there.
pub redirect-follow :
    (s : Session)
    → s.mounted ≡ true
    → s.is_loading ≡ false
    → (redirect (follow (redirect s) s) ≡ [])
      × (is_some (follow (redirect s) s).user ≡ not ((follow (redirect s) s).pathname == "/login"))
      × (can_render_children (follow (redirect s) s) ≡ true)
unfolding redirect follow can_render_children
redirect-follow s m l = rw (m, l) (known-follow s.pathname s.user)

-- An event after which no user is known who was not known before.
abbrev pub NamesNobody : Event → Type 0
NamesNobody mounts = Unit
NamesNobody (restored (resolved u)) = ⊥
NamesNobody (restored (rejected e)) = Unit
NamesNobody (logged_in (resolved u)) = ⊥
NamesNobody (logged_in (rejected e)) = Unit
NamesNobody (logged_out r) = Unit
NamesNobody (visits path) = Unit

step-nobody : (s : Session) (e : Event) → NamesNobody e → s.user ≡ none → (step s e).user ≡ none
unfolding step
step-nobody s mounts h n = n
step-nobody s (restored (resolved u)) h n = absurd h
step-nobody s (restored (rejected e)) h n = refl
step-nobody s (logged_in (resolved u)) h n = absurd h
step-nobody s (logged_in (rejected e)) h n = n
step-nobody s (logged_out r) h n = refl
step-nobody s (visits path) h n = n

logged_out-user : (s : Session) (r : Reply (Unit {0})) → (step s (logged_out r)).user ≡ none
unfolding step
logged_out-user s r = refl

steps-nobody :
    (es : List Event) (s : Session) → All NamesNobody es → s.user ≡ none → (steps s es).user ≡ none
unfolding steps
steps-nobody [] s h n = n
steps-nobody (e ∷ es) s h n = steps-nobody es (step s e) h.1 (step-nobody s e h.0 n)

-- After a logout, answered or refused, no page but the login page is rendered until the control
-- plane names a user again.
pub steps-logged_out :
    (s : Session) (r : Reply (Unit {0})) (es : List Event)
    → All NamesNobody es
    → (steps (step s (logged_out r)) es).pathname ≢ "/login"
    → can_render_children (steps (step s (logged_out r)) es) ≡ false
unfolding can_render_children
steps-logged_out s r es h p =
    let t = steps (step s (logged_out r)) es in
    let n : t.user ≡ none = steps-nobody es (step s (logged_out r)) h (logged_out-user s r) in
    rw n (ground (arith, eq_iff t.pathname "/login"))

-- A session check that is refused after a login has succeeded ends the session of that user.
pub restored-logged_in :
    (s : Session) (u : User) (e : Thrown)
    → (steps s (logged_in (resolved u) ∷ [])).user ≡ some u
      × (steps s (logged_in (resolved u) ∷ restored (rejected e) ∷ [])).user ≡ none
unfolding steps
restored-logged_in s u e = (refl, refl)
