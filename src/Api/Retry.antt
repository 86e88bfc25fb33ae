-- ===== src/Api/Retry.antt =====
-- When `fetchJSON` refreshes the session and tries again.
use ota_robot_system.Base.{
  ℕ, ◌+◌, ◌≤◌, ◌≡◌, refl, String, true, false, inl, inr, List, [], ◌∷◌, ◌++◌, length, length-append,
  arith, Bool-cases, nat_eq, if◌then◌else◌,
}
use ota_robot_system.Api.{
  Request, Response, network_failure, reply, Payload, Parsed, body, no_json, ok, err, is_ok,
  refresh_request, is_auth_mutation, sent, refusal, conclude, wants_refresh, refreshed, fetch_again,
  try_refresh, fetch_json,
}

module _ {ℓ} {A : Type ℓ} (serve : List Request → Request → Response A) where
  length-try_refresh :
      (past : List Request) (r : Request) (first : Response A)
      → length (try_refresh serve past r first).1 ≤ length past + 2
  unfolding try_refresh fetch_again
  length-try_refresh past r first = elim (Bool-cases (refreshed (serve past refresh_request))) [
    | inl h ↦ rw h (
        omega (
          arith,
          length-append (past ++ refresh_request ∷ []) (sent r ∷ []),
          length-append past (refresh_request ∷ []),
        ))
    | inr h ↦ rw h (omega (arith, length-append past (refresh_request ∷ [])))
  ]

  -- A call sends three requests at most, whatever the server answers: itself, one refresh, and
  -- itself once more.
  pub length-fetch_json :
      (past : List Request) (r : Request) → length (fetch_json serve past r).1 ≤ length past + 3
  unfolding fetch_json
  length-fetch_json past r = elim (Bool-cases (wants_refresh r.url (serve past (sent r)))) [
    | inl h ↦ rw h (
        omega (
          arith,
          length-try_refresh (past ++ sent r ∷ []) r (serve past (sent r)),
          length-append past (sent r ∷ []),
        ))
    | inr h ↦ rw h (omega (arith, length-append past (sent r ∷ [])))
  ]

  wants_refresh-auth :
      (url : String) (a : Response A) → is_auth_mutation url ≡ true → wants_refresh url a ≡ false
  unfolding wants_refresh
  wants_refresh-auth url (network_failure m) h = refl
  wants_refresh-auth url (reply status text b) h = ground (arith, h)

  -- A call whose address has `/login`, `/refresh` or `/logout` in it is sent once, and its answer
  -- is final: it never starts a refresh.
  pub fetch_json-auth :
      (past : List Request) (r : Request)
      → is_auth_mutation r.url ≡ true
      → fetch_json serve past r ≡ (conclude (serve past (sent r)), past ++ sent r ∷ [])
  unfolding fetch_json
  fetch_json-auth past r h = rw (wants_refresh-auth r.url (serve past (sent r)) h)

  module _ (past : List Request) (r : Request) (text : String) (b : Parsed A) where
    -- The answer 401 to any other call leads to one refresh. If that is good, the call is sent
    -- again and its second answer is final; if not, the call fails with the message of the 401.
    pub fetch_json-unauthorized :
        serve past (sent r) ≡ reply 401 text b
        → is_auth_mutation r.url ≡ false
        → fetch_json serve past r ≡ (
            if refreshed (serve (past ++ sent r ∷ []) refresh_request)
            then (
              conclude (serve ((past ++ sent r ∷ []) ++ refresh_request ∷ []) (sent r)),
              ((past ++ sent r ∷ []) ++ refresh_request ∷ []) ++ sent r ∷ [],
            )
            else (err (refusal text b), (past ++ sent r ∷ []) ++ refresh_request ∷ []))
    unfolding fetch_json try_refresh fetch_again conclude wants_refresh
    fetch_json-unauthorized e h =
        rw (e, h)
          (elim (Bool-cases (refreshed (serve (past ++ sent r ∷ []) refresh_request))) [
            | inl g ↦ rw g
            | inr g ↦ rw g
          ])

  -- A good answer, as the server gave it to this call after some of the requests.
  abbrev pub Given : Request → A → Type ℓ
  Given r v =
      (h : List Request) × (status : ℕ) × (text : String) × (p : Payload A) × (serve h (sent r)
        ≡ reply status text (body p))
      × (is_ok status ≡ true)
      × (p.value ≡ v)

  conclude-Given :
      (h : List Request) (r : Request) (a : Response A) (v : A)
      → serve h (sent r) ≡ a
      → conclude a ≡ ok v
      → Given r v
  unfolding conclude
  conclude-Given h r (network_failure m) v e c = cc
  conclude-Given h r (reply status text (body p)) v e c = elim (Bool-cases (is_ok status)) [
    | inl g ↦ (h, status, text, p, e, g, ground arith)
    | inr g ↦ ground arith
  ]
  conclude-Given h r (reply status text (no_json m)) v e c = ground arith

  try_refresh-Given :
      (past h : List Request) (r : Request) (v : A)
      → (try_refresh serve past r (serve h (sent r))).0 ≡ ok v
      → Given r v
  unfolding try_refresh fetch_again
  try_refresh-Given past h r v e = elim (Bool-cases (refreshed (serve past refresh_request))) [
    | inl g ↦
        conclude-Given (past ++ refresh_request ∷ []) r
          (serve (past ++ refresh_request ∷ []) (sent r)) v refl (rw g at e)
    | inr g ↦ conclude-Given h r (serve h (sent r)) v refl (rw g at e)
  ]

  -- A call returns a value only if the server gave that value to that very call with a good
  -- status.
  pub fetch_json-Given :
      (past : List Request) (r : Request) (v : A) → (fetch_json serve past r).0 ≡ ok v → Given r v
  unfolding fetch_json
  fetch_json-Given past r v e = elim (Bool-cases (wants_refresh r.url (serve past (sent r)))) [
    | inl h ↦ try_refresh-Given (past ++ sent r ∷ []) past r v (rw h at e)
    | inr h ↦ conclude-Given past r (serve past (sent r)) v refl (rw h at e)
  ]
