-- ===== src/Session/Client.antt =====
-- The session (frontend/src/context/AuthContext.tsx) over the client of the control plane
-- (frontend/src/lib/api.ts): the check of the session, the login and the logout are calls of
-- `fetchJSON`. Other calls may be sent in between, so a call comes with the requests that were
-- sent before it. `user_of` reads the field `user` of an answer.
pub mod Named
pub mod Expired
pub mod Examples
use ota_robot_system.Base.{String, List, ◌∷◌, []}
use ota_robot_system.Types.{User}
use ota_robot_system.Types.Telemetry.{error_object}
use ota_robot_system.Types.Reply.{Reply, resolved, rejected}
use ota_robot_system.Api.{Request, Response, Result, ok, err, fetch_json}
use ota_robot_system.Api.Requests.{request_of, get_me, login, logout}
use ota_robot_system.Session.{Event, mounts, restored, logged_in, logged_out, visits}

pub data Ask : Type 0 where
  opens : Ask
  checks logs_out : List Request → Ask
  logs_in : String → List Request → Ask
  goes : String → Ask

-- An `async` function of the client returns the value, or throws an error with the message.
pub reply_of {ℓ} : {A : Type ℓ} {B : Type 0} → (A → B) → Result A → Reply B
reply_of f (ok v) = resolved (f v)
reply_of f (err m) = rejected (error_object m)

-- What the session sees of it.
unfoldable pub event_of {ℓ} :
    {A : Type ℓ} → (List Request → Request → Response A) → (A → User) → Ask → Event
unfolding reply_of
event_of serve user_of opens = mounts
event_of serve user_of (checks past) =
    restored (reply_of user_of (fetch_json serve past (request_of get_me)).0)
event_of serve user_of (logs_in payload past) =
    logged_in (reply_of user_of (fetch_json serve past (request_of (login payload))).0)
event_of serve user_of (logs_out past) =
    logged_out (reply_of (λ v. tt) (fetch_json serve past (request_of logout)).0)
event_of serve user_of (goes path) = visits path
