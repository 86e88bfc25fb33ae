-- ===== src/Proxy/Coverage.antt =====
-- Every request of the client goes to the control plane.
use text.Mathlib.TextLemmas.{append_assoc}
use ota_robot_system.Base.{◌≡◌, refl, String, Option, none, some, concat}
use ota_robot_system.Api.Requests.{
  ApiCall, login, logout, get_me, get_devices, prune_offline_devices, get_firmwares,
  get_deployments, get_device, delete_device, get_firmware_download_url, delete_firmware,
  get_deployment, rollback_deployment, upload_firmware, update_firmware, create_deployment,
  request_of,
}
use ota_robot_system.Proxy.{Environment, api_host, rewritten}

-- The part of the address behind the prefix of the interface.
unfoldable pub route : ApiCall → String
route (login payload) = "auth/login"
route logout = "auth/logout"
route get_me = "auth/me"
route get_devices = "devices"
route (get_device id) = concat "devices/" id
route (delete_device id) = concat "devices/" id
route prune_offline_devices = "devices/prune-offline"
route get_firmwares = "firmware"
route upload_firmware = "firmware/upload"
route (get_firmware_download_url id) = concat "firmware/" (concat id "/url")
route (update_firmware id payload) = concat "firmware/" id
route (delete_firmware id) = concat "firmware/" id
route get_deployments = "deployments"
route (get_deployment id) = concat "deployments/" id
route (create_deployment payload) = "deployments"
route (rollback_deployment id) = concat "deployments/" (concat id "/rollback")

request_of-route : (c : ApiCall) → (request_of c).url ≡ concat "/api/v1/" (route c)
unfolding request_of route
request_of-route (login payload) = refl
request_of-route logout = refl
request_of-route get_me = refl
request_of-route get_devices = refl
request_of-route (get_device id) = append_assoc "/api/v1/" "devices/" id
request_of-route (delete_device id) = append_assoc "/api/v1/" "devices/" id
request_of-route prune_offline_devices = refl
request_of-route get_firmwares = refl
request_of-route upload_firmware = refl
request_of-route (get_firmware_download_url id) =
    append_assoc "/api/v1/" "firmware/" (concat id "/url")
request_of-route (update_firmware id payload) = append_assoc "/api/v1/" "firmware/" id
request_of-route (delete_firmware id) = append_assoc "/api/v1/" "firmware/" id
request_of-route get_deployments = refl
request_of-route (get_deployment id) = append_assoc "/api/v1/" "deployments/" id
request_of-route (create_deployment payload) = refl
request_of-route (rollback_deployment id) =
    append_assoc "/api/v1/" "deployments/" (concat id "/rollback")

-- The path of each operation of the client is forwarded to the same path of the control plane, if
-- the framework finds it fit for the rule of the interface, with the part behind the prefix, and
-- not for the rule of the health check.
pub rewritten-request_of :
    (capture : String → String → Option String) (env : Environment) (c : ApiCall)
    → capture "/health" (request_of c).url ≡ none
    → capture "/api/v1/:path*" (concat "/api/v1/" (route c)) ≡ some (route c)
    → rewritten capture env (request_of c).url ≡ some (concat (api_host env) (request_of c).url)
unfolding rewritten
rewritten-request_of capture env c h m = let url = request_of-route c in rw (h, url, m) refl
