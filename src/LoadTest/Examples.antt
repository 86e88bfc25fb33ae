-- ===== src/LoadTest/Examples.antt =====
-- Two iterations of the load test, and the theorem about its counters at a concrete input.
use ota_robot_system.Base.{
  ◌≡◌, refl, String, none, some, List, [], length, string_eq, ◌==◌, if◌then◌else◌,
}
use ota_robot_system.LoadTest.{
  Response, Reader, Run, no_metrics, iteration, probe, record_result, status_ok, devices_ok,
  health_ok,
}

-- The catalogue has a release, and the answer to the request for its address is no JSON.
abbrev serve : List String → String → Response
serve past url = record { status = 200; body = if url == "/health" then "OK" else "busy" }

abbrev reader : Reader
reader = record { data_length = λ s. some 3; first_id = λ s. some "fw-1"; has_url = λ s. none }

abbrev fresh : Run
fresh = record { metrics = no_metrics; asked = [] }

-- Five requests, of which four are counted.
iteration-fresh : (iteration serve reader fresh).metrics.rate_samples ≡ 4
unfolding iteration probe record_result status_ok devices_ok health_ok
iteration-fresh = refl

asked-fresh : length (iteration serve reader fresh).asked ≡ 5
unfolding iteration probe status_ok
asked-fresh = refl
