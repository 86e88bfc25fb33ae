-- ===== src/LoadTest.antt =====
-- The load test of the control plane (scripts/k6/load_test_fleet.js): one iteration of a virtual
-- robot, its checks and its counters. The server is a parameter, which answers by the requests
-- before, and so is the reading of an answer's JSON.
pub mod Counters
pub mod Examples
use ota_robot_system.Base.{
  ℕ, zero, suc, ◌+◌, String, Bool, true, false, not, ◌&&◌, ◌||◌, Option, none, some, List, [], ◌∷◌,
  ◌++◌, ltb, ◌==◌, nat_eq, string_eq, concat, if◌then◌else◌,
}

pub record Response : Type 0 where
  pub status : ℕ
  pub body : String

-- What the script reads from a body, where `none` stands for an exception.
pub record Reader : Type 0 where
  -- the length of `data`, if that is an array
  pub data_length : String → Option ℕ
  -- the id of the first entry of `data`, as text, if there is an entry
  pub first_id : String → Option String
  -- whether `url` is a text that is not empty
  pub has_url : String → Option Bool

-- `k6_successful_requests`, `k6_failed_requests`, and the rate `k6_success_rate`.
pub record Metrics : Type 0 where
  pub successful_requests : ℕ
  pub failed_requests : ℕ
  pub rate_good : ℕ
  pub rate_samples : ℕ

abbrev pub no_metrics : Metrics
no_metrics = record {
  successful_requests = 0;
  failed_requests = 0;
  rate_good = 0;
  rate_samples = 0;
}

pub record Run : Type 0 where
  pub metrics : Metrics
  -- the addresses that were asked, in order
  pub asked : List String

-- `apiSuccessRate.add(ok); if (ok) successfulRequests.add(1); else failedRequests.add(1)`.
unfoldable pub record_result : Bool → Metrics → Metrics
record_result true m = record {
  successful_requests = m.successful_requests + 1;
  failed_requests = m.failed_requests;
  rate_good = m.rate_good + 1;
  rate_samples = m.rate_samples + 1;
}
record_result false m = record {
  successful_requests = m.successful_requests;
  failed_requests = m.failed_requests + 1;
  rate_good = m.rate_good;
  rate_samples = m.rate_samples + 1;
}

-- `Array.isArray(json.data) && json.data.length > 0`, and false where the reading throws.
has_data : Option ℕ → Bool
has_data none = false
has_data (some n) = ltb 0 n

module _ (serve : List String → String → Response) (read : Reader) where
  -- A request, its check, and what the metrics make of it.
  unfoldable pub probe : String → (Response → Bool) → Run → Run
  probe url ok r = record {
    metrics = record_result (ok (serve r.asked url)) r.metrics;
    asked = r.asked ++ url ∷ [];
  }

  unfoldable pub health_ok : Response → Bool
  health_ok res = res.status == 200 && res.body == "OK"

  unfoldable pub devices_ok : Response → Bool
  unfolding has_data
  devices_ok res = res.status == 200 && has_data (read.data_length res.body)

  unfoldable pub status_ok : Response → Bool
  status_ok res = res.status == 200

  -- The check of the address: an exception in it leaves the block before anything is counted.
  url_checked : Option Bool → Response → Metrics → Metrics
  unfolding record_result
  url_checked none res m = m
  url_checked (some b) res m = record_result (res.status == 200 && b) m

  ask_url : Option String → Run → Run
  unfolding url_checked
  ask_url none r = r
  ask_url (some id) r =
      let url = concat "/api/v1/firmware/" (concat id "/url") in
      let res = serve r.asked url in
      record {
        metrics = url_checked (read.has_url res.body) res r.metrics;
        asked = r.asked ++ url ∷ [];
      }

  -- The catalogue, and behind a good answer the address of its first release.
  unfoldable pub firmware_probe : Run → Run
  unfolding ask_url
  firmware_probe r =
      let res = serve r.asked "/api/v1/firmware" in
      let now = probe "/api/v1/firmware" status_ok r in
      if status_ok res then ask_url (read.first_id res.body) now else now

  -- The exported function, up to its pause.
  unfoldable pub iteration : Run → Run
  unfolding firmware_probe
  iteration r =
      probe "/api/v1/deployments" status_ok
        (firmware_probe (probe "/api/v1/devices" devices_ok (probe "/health" health_ok r)))

  unfoldable pub iterations : ℕ → Run → Run
  unfolding iteration
  iterations zero r = r
  iterations (suc n) r = iterations n (iteration r)
