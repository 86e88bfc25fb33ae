-- ===== src/LoadTest/Counters.antt =====
-- The counters of the load test agree with one another and with the requests.
use ota_robot_system.Base.{
  ℕ, zero, suc, ◌+◌, ◌*◌, ◌≤◌, ◌≡◌, refl, String, Bool, true, false, ◌&&◌, Option, none, some, List,
  [], ◌∷◌, ◌++◌, length, length-append, ◌==◌, nat_eq, string_eq, arith, Bool-cases, inl, inr,
  concat,
}
use ota_robot_system.LoadTest.{
  Response, Reader, Metrics, no_metrics, Run, record_result, probe, status_ok, health_ok,
  devices_ok, url_checked, ask_url, firmware_probe, iteration, iterations,
}

-- Every sample of the rate is a success or a failure, and no sample is without its request.
pub record IsBalanced (r : Run) : Type 0 where
  pub samples : r.metrics.successful_requests + r.metrics.failed_requests ≡ r.metrics.rate_samples
  pub good : r.metrics.rate_good ≡ r.metrics.successful_requests
  pub asked : r.metrics.rate_samples ≤ length r.asked

-- What a part of an iteration adds: samples and requests.
record Adds (least most : ℕ) (r q : Run) : Type 0 where
  balanced : IsBalanced r → IsBalanced q
  samples : r.metrics.rate_samples + least ≤ q.metrics.rate_samples
  requests : length q.asked ≤ length r.asked + most

Adds-trans : {a b c d : ℕ} {r q p : Run} → Adds a b r q → Adds c d q p → Adds (a + c) (b + d) r p
Adds-trans f g = record {
  balanced = λ h. g.balanced (f.balanced h);
  samples = omega (arith, f.samples, g.samples);
  requests = omega (arith, f.requests, g.requests);
}

Adds-refl : (r : Run) → Adds 0 0 r r
Adds-refl r = record { balanced = λ h. h; samples = omega arith; requests = omega arith }

counted :
    (b : Bool) (m : Metrics) (a : List String) (url : String)
    → Adds 1 1
        (record { metrics = m; asked = a })
        (record { metrics = record_result b m; asked = a ++ url ∷ [] })
unfolding record_result
counted true m a url =
    let l = length-append a (url ∷ []) in
    record {
      balanced = λ h. record {
        samples = ground (arith, h.samples);
        good = ground (arith, h.good);
        asked = ground (arith, l, h.asked);
      };
      samples = omega arith;
      requests = omega (arith, l);
    }
counted false m a url =
    let l = length-append a (url ∷ []) in
    record {
      balanced = λ h. record {
        samples = ground (arith, h.samples);
        good = h.good;
        asked = ground (arith, l, h.asked);
      };
      samples = omega arith;
      requests = omega (arith, l);
    }

uncounted :
    (m : Metrics) (a : List String) (url : String)
    → Adds 0 1 (record { metrics = m; asked = a }) (record { metrics = m; asked = a ++ url ∷ [] })
uncounted m a url =
    let l = length-append a (url ∷ []) in
    record {
      balanced =
          λ h. record { samples = h.samples; good = h.good; asked = ground (arith, l, h.asked) };
      samples = omega arith;
      requests = omega (arith, l);
    }

weaken : {a b c d : ℕ} {r q : Run} → a ≤ b → d ≤ c → Adds b d r q → Adds a c r q
weaken h k f = record {
  balanced = f.balanced;
  samples = omega (arith, f.samples);
  requests = omega (arith, f.requests);
}

module _ (serve : List String → String → Response) (read : Reader) where
  probe-Adds :
      (url : String) (ok : Response → Bool) (r : Run) → Adds 1 1 r (probe serve read url ok r)
  unfolding probe
  probe-Adds url ok r = counted (ok (serve r.asked url)) r.metrics r.asked url

  url_checked-Adds :
      (o : Option Bool) (res : Response) (m : Metrics) (a : List String) (url : String)
      → Adds 0 1
          (record { metrics = m; asked = a })
          (record { metrics = url_checked serve read o res m; asked = a ++ url ∷ [] })
  unfolding url_checked
  url_checked-Adds none res m a url = uncounted m a url
  url_checked-Adds (some b) res m a url =
      weaken (omega arith) (omega arith) (counted (res.status == 200 && b) m a url)

  ask_url-Adds : (o : Option String) (r : Run) → Adds 0 1 r (ask_url serve read o r)
  unfolding ask_url
  ask_url-Adds none r = record { balanced = λ h. h; samples = omega arith; requests = omega arith }
  ask_url-Adds (some id) r =
      let url = concat "/api/v1/firmware/" (concat id "/url") in
      let res = serve r.asked url in
      url_checked-Adds (read.has_url res.body) res r.metrics r.asked url

  firmware_probe-Adds : (r : Run) → Adds 1 2 r (firmware_probe serve read r)
  unfolding firmware_probe
  firmware_probe-Adds r =
      let first = probe-Adds "/api/v1/firmware" (status_ok serve read) r in
      elim (Bool-cases (status_ok serve read (serve r.asked "/api/v1/firmware"))) [
        | inl e ↦ rw e (Adds-trans first (ask_url-Adds _ _))
        | inr e ↦ rw e (weaken (omega arith) (omega arith) first)
      ]

  iteration-Adds : (r : Run) → Adds 4 5 r (iteration serve read r)
  unfolding iteration
  iteration-Adds r =
      Adds-trans
        (Adds-trans
          (Adds-trans (probe-Adds "/health" (health_ok serve read) r)
            (probe-Adds "/api/v1/devices" (devices_ok serve read) _))
          (firmware_probe-Adds _))
        (probe-Adds "/api/v1/deployments" (status_ok serve read) _)

  iterations-Adds : (n : ℕ) (r : Run) → Adds (n * 4) (n * 5) r (iterations serve read n r)
  unfolding iterations
  iterations-Adds zero r = Adds-refl r
  iterations-Adds (suc n) r =
      weaken (omega arith) (omega arith)
        (Adds-trans (iteration-Adds r) (iterations-Adds n (iteration serve read r)))

  -- After any number of iterations against any server: each sample of the success rate is counted
  -- once, as a success if it is good and as a failure otherwise; each iteration has made at least
  -- four samples and at most five requests, and there are no more samples than requests.
  pub iterations-IsBalanced :
      (n : ℕ)
      → IsBalanced (iterations serve read n (record { metrics = no_metrics; asked = [] }))
        × (n * 4
            ≤ (iterations serve read n
                (record { metrics = no_metrics; asked = [] })).metrics.rate_samples)
        × (length (iterations serve read n (record { metrics = no_metrics; asked = [] })).asked
            ≤ n * 5)
  iterations-IsBalanced n =
      let a = iterations-Adds n (record { metrics = no_metrics; asked = [] }) in
      (
        a.balanced (record { samples = omega arith; good = refl; asked = omega arith }),
        omega (arith, a.samples),
        omega (arith, a.requests),
      )
