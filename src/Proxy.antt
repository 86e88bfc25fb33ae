-- ===== src/Proxy.antt =====
-- The server of the dashboard (frontend/next.config.mjs): the address of the control plane, the
-- rewriting of requests and the headers of each page. The matching of a path with a pattern is
-- that of the framework: `capture pattern path` gives the part that `:path*` stands for, if the
-- path fits.
pub mod Coverage
pub mod Examples
use ota_robot_system.Base.{
  String, Bool, true, false, Option, none, some, List, [], ◌∷◌, or_else, ◌==◌, string_eq, concat,
  if◌then◌else◌,
}

-- The variables of the environment, empty where they are not set.
pub record Environment : Type 0 where
  pub api_internal_url : String
  pub next_public_api_url : String
  pub node_env : String

unfoldable pub api_host : Environment → String
api_host env = or_else env.api_internal_url (
    or_else env.next_public_api_url (
      if env.node_env == "production"
      then "https://ota-api-omxf.onrender.com"
      else "http://localhost:8000"))

unfoldable pub script_sources : Environment → String
script_sources env =
    if env.node_env == "production"
    then "script-src 'self' 'unsafe-inline'"
    else "script-src 'self' 'unsafe-inline' 'unsafe-eval'"

-- The headers of every page.
unfoldable pub headers : Environment → List (String × String)
headers env =
    (
      "Content-Security-Policy",
      concat "default-src 'self'; " (
          concat (script_sources env)
            "; style-src 'self' 'unsafe-inline'; img-src 'self' data: blob:; font-src 'self' data:; connect-src 'self'; object-src 'none'; base-uri 'self'; form-action 'self'; frame-ancestors 'none'"),
    )
    ∷ ("X-Content-Type-Options", "nosniff")
    ∷ ("X-Frame-Options", "DENY")
    ∷ ("Strict-Transport-Security", "max-age=63072000; includeSubDomains; preload")
    ∷ ("Referrer-Policy", "no-referrer")
    ∷ ("Permissions-Policy", "camera=(), microphone=(), geolocation=()")
    ∷ []

module _ (capture : String → String → Option String) (env : Environment) where
  api_destination : Option String → Option String
  api_destination none = none
  api_destination (some rest) = some (concat (api_host env) (concat "/api/v1/" rest))

  health_destination : Option String → Option String → Option String
  unfolding api_destination
  health_destination none api = api_destination api
  health_destination (some rest) api = some (concat (api_host env) "/health")

  -- Where a request for a path goes: the first rule that fits. Others are pages of the dashboard.
  unfoldable pub rewritten : String → Option String
  unfolding health_destination
  rewritten path = health_destination (capture "/health" path) (capture "/api/v1/:path*" path)
