-- ===== src/Api.antt =====
-- The client of the control plane (frontend/src/lib/api.ts): `fetchJSON` and what it sends. The
-- network and the server are a parameter: `serve` gives the answer to a request after the
-- requests that were sent before it.
pub mod Retry
pub mod Requests
pub mod Direct
pub mod SingleFlight
pub mod Examples
use ota_robot_system.Base.{
  ℕ, String, Bool, true, false, not, ◌&&◌, ◌||◌, Option, none, some, List, [], ◌∷◌, ◌++◌, filter,
  ◌==◌, nat_eq, string_eq, leb, if◌then◌else◌, truthy, codes, contains, concat,
}

pub data Method : Type 0 where
  get post patch delete : Method

pub data Body : Type 0 where
  empty : Body
  json : String → Body
  form_data : Body

pub record Request : Type 0 where
  pub url : String
  pub method : Method
  pub headers : List (String × String)
  pub content : Body

-- The parsed body of an answer: its `error`, empty where it has none, and the whole of it.
pub record Payload {ℓ} (A : Type ℓ) : Type ℓ where
  pub error : String
  pub value : A

-- `await response.json()`: the body, or the message of the error that it throws.
pub data Parsed {ℓ} (A : Type ℓ) : Type ℓ where
  body : Payload A → Parsed A
  no_json : String → Parsed A

pub data Response {ℓ} (A : Type ℓ) : Type ℓ where
  -- `fetch` rejects, with a message
  network_failure : String → Response A
  -- a status with its text (`status statusText`) and the body
  reply : ℕ → String → Parsed A → Response A

pub data Result {ℓ} (A : Type ℓ) : Type ℓ where
  ok : A → Result A
  err : String → Result A

-- `response.ok`.
abbrev pub is_ok : ℕ → Bool
is_ok status = leb 200 status && leb status 299

-- The caller's headers behind `Accept`; the browser writes the one of a form itself.
unfoldable pub fetch_headers : Body → List (String × String) → List (String × String)
fetch_headers empty headers = ("Accept", "application/json") ∷ headers
fetch_headers (json s) headers = ("Accept", "application/json") ∷ headers
fetch_headers form_data headers =
    filter (λ h. not (h.0 == "Content-Type")) (("Accept", "application/json") ∷ headers)

unfoldable pub is_auth_mutation : String → Bool
is_auth_mutation url =
    contains (codes url) (codes "/login")
    || contains (codes url) (codes "/refresh")
    || contains (codes url) (codes "/logout")

abbrev pub refresh_request : Request
refresh_request = record {
  url = "/api/v1/auth/refresh";
  method = post;
  headers = [];
  content = empty;
}

unfoldable pub sent : Request → Request
unfolding fetch_headers
sent r = record r { headers = fetch_headers r.content r.headers }

-- The message of a refusal: the body's `error`, or else the status.
pub refusal {ℓ} : {A : Type ℓ} → String → Parsed A → String
refusal text (no_json m) = concat "Request failed: " text
refusal text (body p) = if truthy p.error then p.error else concat "Request failed: " text

unfoldable pub parsed {ℓ} : {A : Type ℓ} → Parsed A → Result A
parsed (no_json m) = err m
parsed (body p) = ok p.value

-- What `fetchJSON` makes of an answer when it does not try again.
unfoldable pub conclude {ℓ} : {A : Type ℓ} → Response A → Result A
unfolding refusal parsed
conclude (network_failure m) = err m
conclude (reply status text b) = if is_ok status then parsed b else err (refusal text b)

-- `response.status === 401 && retry && !isAuthMutation`, with `retry` true.
unfoldable pub wants_refresh {ℓ} : {A : Type ℓ} → String → Response A → Bool
unfolding is_auth_mutation
wants_refresh url (network_failure m) = false
wants_refresh url (reply status text b) = status == 401 && not (is_auth_mutation url)

-- `coordinatedRefresh` with no other caller: whether the answer to the refresh is good.
unfoldable pub refreshed {ℓ} : {A : Type ℓ} → Response A → Bool
refreshed (network_failure m) = false
refreshed (reply status text b) = is_ok status

module _ {ℓ} {A : Type ℓ} (serve : List Request → Request → Response A) where
  -- `fetchJSON(url, init, false)`, after the requests `past`.
  unfoldable pub fetch_again : List Request → Request → Result A × List Request
  unfolding sent conclude
  fetch_again past r = (conclude (serve past (sent r)), past ++ sent r ∷ [])

  after_refresh : List Request → Request → Response A → Bool → Result A × List Request
  after_refresh past r first true = fetch_again past r
  after_refresh past r first false = (conclude first, past)

  try_refresh : List Request → Request → Response A → Result A × List Request
  unfolding after_refresh
  try_refresh past r first =
      after_refresh (past ++ refresh_request ∷ []) r first (refreshed (serve past refresh_request))

  -- `fetchJSON(url, init)`: the result, or the error thrown, and all the requests sent so far.
  unfoldable pub fetch_json : List Request → Request → Result A × List Request
  unfolding try_refresh
  fetch_json past r =
      let first = serve past (sent r) in
      let now = past ++ sent r ∷ [] in
      if wants_refresh r.url first then try_refresh now r first else (conclude first, now)
