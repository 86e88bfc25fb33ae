-- ===== src/Api/Direct.antt =====
-- The two operations of `api` (frontend/src/lib/api.ts) that call `fetch` themselves.
use ota_robot_system.Base.{Bool, List, [], ◌∷◌, ◌++◌, if◌then◌else◌}
use ota_robot_system.Api.{
  Request, get, empty, Response, network_failure, reply, Result, err, is_ok, refresh_request,
  refreshed, parsed,
}

abbrev pub health_request : Request
health_request = record { url = "/health"; method = get; headers = []; content = empty }

session_of {ℓ} : {A : Type ℓ} → Response A → Result A
unfolding parsed
session_of (network_failure m) = err m
session_of (reply status text b) =
    if is_ok status then parsed b else err "Session expired or refresh failed"

module _ {ℓ} {A : Type ℓ} (serve : List Request → Request → Response A) where
  -- `getHealth()`: whether the answer is good, also where none comes.
  unfoldable pub get_health : List Request → Bool × List Request
  get_health past = (refreshed (serve past health_request), past ++ health_request ∷ [])

  -- `refresh()`.
  unfoldable pub refresh : List Request → Result A × List Request
  unfolding session_of
  refresh past = (session_of (serve past refresh_request), past ++ refresh_request ∷ [])
