-- ===== src/Session/Login.antt =====
-- The login page (frontend/src/app/login/page.tsx): its form, and the form together with the
-- session, which is what a submission changes.
use ota_robot_system.Base.{
  ◌≡◌, ◌≢◌, refl, String, Bool, true, false, not, ◌||◌, Option, none, some, List, [], ◌∷◌, truthy,
  if◌then◌else◌, Out, Effect, push, ◌⊎◌, inl, inr, truthy_iff, Bool-cases,
}
use ota_robot_system.Types.{User}
use ota_robot_system.Types.Telemetry.{Thrown, get_error_message}
use ota_robot_system.Types.Reply.{Reply, resolved, rejected}
use ota_robot_system.Session.{Session, login_settle}

pub record LoginForm : Type 0 where
  pub username : String
  pub password : String
  pub error_text : Option String
  pub loading : Bool

abbrev pub blank : LoginForm
blank = record { username = ""; password = ""; error_text = none; loading = false }

-- The effect that leaves the page when a user is known.
unfoldable pub leave : Option User → List Effect
leave none = []
leave (some u) = push "/" ∷ []

-- `handleSubmit` up to the call: the credentials to send, or none, and the form.
unfoldable pub submit_start : LoginForm → Option (String × String) × LoginForm
submit_start f =
    if not (truthy f.username) || not (truthy f.password)
    then (none, record f { error_text = some "Please enter both username and password." })
    else (some (f.username, f.password), record f { loading = true; error_text = none })

-- The rest of `handleSubmit`, after `login` has settled the session.
unfoldable pub submit_settle : Reply User → LoginForm → Out LoginForm
submit_settle (resolved u) f = record {
  state = record f { loading = false };
  effects = push "/" ∷ [];
}
submit_settle (rejected e) f = record {
  state = record f {
    error_text =
        some (get_error_message e "Authentication failed. Please verify your credentials.");
    loading = false;
  };
  effects = [];
}

-- The answer to a login, on the form and on the session.
abbrev pub answered : Reply User → LoginForm × Session → Out (LoginForm × Session)
answered r (f, s) = record {
  state = ((submit_settle r f).state, login_settle r s);
  effects = (submit_settle r f).effects;
}

-- A submission with a user name and a password sends these two and blocks the form; a good answer
-- makes the user known, shows no error and leaves the page; a refusal shows its message, stays,
-- and does not change the session. The form is free again in both cases.
pub answered-submit_start :
    (f : LoginForm) (s : Session) (u : User) (message : String)
    → f.username ≢ ""
    → f.password ≢ ""
    → message ≢ ""
    → let g = (submit_start f).1 in
      let good = answered (resolved u) (g, s) in
      let bad = answered (rejected (Thrown.error_object message)) (g, s) in
      ((submit_start f).0 ≡ some (f.username, f.password))
      × (g.loading ≡ true)
      × (good.state ≡ (record f { error_text = none; loading = false }, record s { user = some u }))
      × (good.effects ≡ push "/" ∷ [])
      × (bad.state ≡ (record f { error_text = some message; loading = false }, s))
      × (bad.effects ≡ [])
unfolding submit_start submit_settle login_settle get_error_message
answered-submit_start f s u message n p m =
    rw ((truthy_iff f.username).1 n, (truthy_iff f.password).1 p, (truthy_iff message).1 m)
      (refl, refl, refl, refl, refl, refl)

-- Without a user name or without a password nothing is sent and an error is shown.
pub submit_start-blank :
    (f : LoginForm)
    → (f.username ≡ "") ⊎ (f.password ≡ "")
    → ((submit_start f).0 ≡ none)
      × ((submit_start f).1
          ≡ record f { error_text = some "Please enter both username and password." })
unfolding submit_start
submit_start-blank f (inl e) = rw e (refl, refl)
submit_start-blank f (inr e) = elim (Bool-cases (truthy f.username)) [
  | inl t ↦ rw (e, t) (refl, refl)
  | inr t ↦ rw (e, t) (refl, refl)
]
