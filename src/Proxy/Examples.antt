-- ===== src/Proxy/Examples.antt =====
-- The server of the dashboard in production, and the theorem about it at a concrete input.
use ota_robot_system.Base.{◌≡◌, refl, String, Option, none, some, ◌==◌, string_eq, if◌then◌else◌}
use ota_robot_system.Proxy.{Environment, api_host}

abbrev production : Environment
production = record { api_internal_url = ""; next_public_api_url = ""; node_env = "production" }

api_host-production : api_host production ≡ "https://ota-api-omxf.onrender.com"
unfolding api_host
api_host-production = refl

-- A matching that knows one path.
abbrev capture : String → String → Option String
capture pattern path =
    if pattern == "/api/v1/:path*"
    then if path == "/api/v1/devices/r1" then some "devices/r1" else none
    else none
