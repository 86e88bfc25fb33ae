-- ===== src/Api/Examples.antt =====
-- Runs of the client, and the theorems about it at concrete inputs.
use ota_robot_system.Base.{ℕ, ◌≤◌, ◌≡◌, refl, true, List, [], ◌∷◌, length, nat_eq, ap, contains}
use ota_robot_system.Api.{
  Request, get, empty, Response, reply, Payload, body, ok, refresh_request, is_auth_mutation, sent,
  fetch_json, wants_refresh, refreshed, fetch_again,
}
use ota_robot_system.Api.Requests.{request_of, get_devices}
use ota_robot_system.Api.Retry.{length-fetch_json, fetch_json-Given, Given}
use ota_robot_system.Api.SingleFlight.{idle, enter, settle, run}
use ota_robot_system.Api.SingleFlight.Coalesce.{run-single_flight}
use ota_robot_system.Api.SingleFlight.Batches.{view, serve_all, view-run}
use ota_robot_system.Api.SingleFlight.Batches as Batches

abbrev payload : ℕ → Payload ℕ
payload n = record { error = ""; value = n }

-- The session has expired: the first request is refused, and all later ones are served.
abbrev expired : List Request → Request → Response ℕ
expired [] r = reply 401 "401 Unauthorized" (body (payload 0))
expired (q ∷ past) r = reply 200 "200 OK" (body (payload 7))

abbrev devices : Request
devices = record { url = "/api/v1/devices"; method = get; headers = []; content = empty }

fetch_json-expired :
    fetch_json expired [] devices ≡ (ok 7, sent devices ∷ refresh_request ∷ sent devices ∷ [])
unfolding fetch_json is_auth_mutation contains wants_refresh refreshed fetch_again
fetch_json-expired = refl

request_of-get_devices : request_of get_devices ≡ devices
unfolding request_of
request_of-get_devices = refl

length-fetch_json_example : length (fetch_json expired [] devices).1 ≤ 3
length-fetch_json_example = length-fetch_json expired [] devices

fetch_json-Given_example : Given expired devices 7
unfolding fetch_json-expired
fetch_json-Given_example = fetch_json-Given expired [] devices 7 (ap (λ p. p.0) fetch_json-expired)

run-single_flight_example :
    (length (run idle (enter 1 ∷ enter 2 ∷ [])).in_flight ≤ 1)
    × ((run idle (enter 1 ∷ enter 2 ∷ [])).in_flight ≡ []
        → (run idle (enter 1 ∷ enter 2 ∷ [])).waiting ≡ [])
run-single_flight_example = run-single_flight (enter 1 ∷ enter 2 ∷ [])

-- Two callers share a refresh, and a third one starts the next.
view-run_example :
    view (run idle (enter 1 ∷ enter 2 ∷ settle true ∷ enter 3 ∷ []))
    ≡ serve_all Batches.empty (enter 1 ∷ enter 2 ∷ settle true ∷ enter 3 ∷ [])
view-run_example = view-run (enter 1 ∷ enter 2 ∷ settle true ∷ enter 3 ∷ [])
