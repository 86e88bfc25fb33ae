-- ===== src/Api/Requests.antt =====
-- The operations of `api` (frontend/src/lib/api.ts) and the request that each one makes.
use ota_robot_system.Base.{String, [], ◌∷◌, concat}
use ota_robot_system.Api.{Request, Method, get, post, patch, delete, empty, json, form_data}

-- A payload stands as the text that `JSON.stringify` gives.
pub data ApiCall : Type 0 where
  login : String → ApiCall
  logout get_me get_devices prune_offline_devices get_firmwares get_deployments : ApiCall
  get_device delete_device get_firmware_download_url delete_firmware : String → ApiCall
  get_deployment rollback_deployment : String → ApiCall
  upload_firmware : ApiCall
  update_firmware : String → String → ApiCall
  create_deployment : String → ApiCall

plain : Method → String → Request
plain m url = record { url = url; method = m; headers = []; content = empty }

with_json : Method → String → String → Request
with_json m url payload = record {
  url = url;
  method = m;
  headers = ("Content-Type", "application/json") ∷ [];
  content = json payload;
}

unfoldable pub request_of : ApiCall → Request
unfolding plain with_json
request_of (login payload) = with_json post "/api/v1/auth/login" payload
request_of logout = plain post "/api/v1/auth/logout"
request_of get_me = plain get "/api/v1/auth/me"
request_of get_devices = plain get "/api/v1/devices"
request_of (get_device id) = plain get (concat "/api/v1/devices/" id)
request_of (delete_device id) = plain delete (concat "/api/v1/devices/" id)
request_of prune_offline_devices = plain post "/api/v1/devices/prune-offline"
request_of get_firmwares = plain get "/api/v1/firmware"
request_of upload_firmware = record (plain post "/api/v1/firmware/upload") { content = form_data }
request_of (get_firmware_download_url id) =
    plain get (concat "/api/v1/firmware/" (concat id "/url"))
request_of (update_firmware id payload) = with_json patch (concat "/api/v1/firmware/" id) payload
request_of (delete_firmware id) = plain delete (concat "/api/v1/firmware/" id)
request_of get_deployments = plain get "/api/v1/deployments"
request_of (get_deployment id) = plain get (concat "/api/v1/deployments/" id)
request_of (create_deployment payload) = with_json post "/api/v1/deployments" payload
request_of (rollback_deployment id) =
    plain post (concat "/api/v1/deployments/" (concat id "/rollback"))
