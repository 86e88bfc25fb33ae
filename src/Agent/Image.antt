-- ===== src/Agent/Image.antt =====
-- An update that was downloaded is installed if its image is the one that was signed.
use mathlib.Core.Path.{subst}
use ota_robot_system.Base.{
  ◌≡◌, ◌≢◌, refl, sym, ◌⊎◌, inl, inr, String, Bool, true, false, ◌&&◌, List, any, ltb, ◌==◌, nat_eq,
  string_eq, truthy, truthy_iff, arith, eq_iff, Bool-cases,
}
use ota_robot_system.Agent.StateMachine.{State, online, failed, downloading, verifying, installing}
use ota_robot_system.Agent.{
  Robot, Update, Download, no_answer, no_body, bad_status, content, Surroundings, Report, progress,
  error, fire, Outcome, refuse, finish, install, verify, read,
}

abbrev pub is_success : Report → Bool
is_success (progress n status) = n == 100 && status == "success"
is_success (error message) = false

-- A success is reported.
abbrev pub succeeded : List Report → Bool
succeeded rs = any is_success rs

module _ {ℓ} {C : Type ℓ} (w : Surroundings C) (cmd : Update) where
  -- The image is the one that was signed for, and it is flashed without a fault.
  abbrev pub IsSigned : C → Type 0
  IsSigned c =
      (w.sha256_hex c ≡ cmd.sha256_checksum)
      × (cmd.signature ≢ "")
      × (w.verify_signature (w.sha256_hex c) cmd.signature ≡ true)
      × (w.is_faulty cmd.version ≡ false)

  -- The robot is free, charged if it is a vehicle, of the right model, has the key, and gets the
  -- image.
  abbrev pub Accepted : Type ℓ
  Accepted =
      (w.configured_activity ≡ "idle")
      × ((w.is_agv && ltb w.current_battery 50) ≡ false)
      × ((cmd.hw_model ≡ "") ⊎ (cmd.hw_model ≡ "all") ⊎ (cmd.hw_model ≡ w.hw_model))
      × (w.has_key ≡ true)
      × ((c : C) × (w.fetch cmd.download_url ≡ content c) × IsSigned c)

  -- How an update ends: as asked, or with the version that was there.
  abbrev pub Succeeds : Outcome → Type 0
  Succeeds o =
      (succeeded o.1 ≡ true)
      × (o.0 ≡ record { fsm = online; current_version = cmd.version; status = "online" })

  abbrev pub Fails : String → Outcome → Type 0
  Fails v o =
      (succeeded o.1 ≡ false)
      × (o.0.current_version ≡ v)
      × (((o.0.fsm ≡ online) × (o.0.status ≡ "online"))
          ⊎ ((o.0.fsm ≡ failed) × (o.0.status ≡ "error")))

  -- A condition decides it.
  abbrev pub Decides {κ} : Type κ → String → Outcome → Type κ
  Decides P v o = (P × Succeeds o) ⊎ (¬ P × Fails v o)

  -- The download brings a signed image.
  abbrev pub Brings : Download C → Type ℓ
  Brings d = (c : C) × (d ≡ content c) × IsSigned c

  module _ (v t : String) where
    abbrev pub at : State → Robot
    at st = record { fsm = st; current_version = v; status = t }

    install-Decides :
        (c : C)
        → (w.sha256_hex c ≡ cmd.sha256_checksum)
        → (cmd.signature ≢ "")
        → (w.verify_signature (w.sha256_hex c) cmd.signature ≡ true)
        → Decides (IsSigned c) v (install w cmd (at installing))
    unfolding install finish fire
    install-Decides c h g k = elim (Bool-cases (w.is_faulty cmd.version)) [
      | inl f ↦ inr (λ s. cc, rw f (refl, refl, inr (refl, refl)))
      | inr f ↦ inl ((h, g, k, f), rw f (refl, refl))
    ]

    verify-Decides : (c : C) → Decides (IsSigned c) v (verify w cmd c (at verifying))
    unfolding verify refuse fire
    verify-Decides c = elim (Bool-cases (w.sha256_hex c == cmd.sha256_checksum)) [
      | inr h ↦ inr (
        λ s. ground (arith, s.0, h, eq_iff (w.sha256_hex c) cmd.sha256_checksum),
        rw h (refl, refl, inl (refl, refl)),
      )
      | inl h ↦ elim (Bool-cases (truthy cmd.signature)) [
        | inr g ↦ inr (
          λ s. absurd (ground (arith, (truthy_iff cmd.signature).1 (s.1), g)),
          rw (h, g) (refl, refl, inl (refl, refl)),
        )
        | inl g ↦ elim (Bool-cases (w.verify_signature (w.sha256_hex c) cmd.signature)) [
          | inr k ↦ inr (λ s. cc, rw (h, g, k) (refl, refl, inl (refl, refl)))
          | inl k ↦
              let e : verify w cmd c (at verifying) ≡ install w cmd (at installing) =
                rw (h, g, k) refl in
              subst (Decides (IsSigned c) v) (sym e) (
                install-Decides c ((eq_iff (w.sha256_hex c) cmd.sha256_checksum).0 h)
                  ((truthy_iff cmd.signature).0 g) k)
        ]
      ]
    ]

    pub read-Decides : (d : Download C) → Decides (Brings d) v (read w cmd d (at downloading))
    unfolding read refuse fire
    read-Decides no_answer = inr (λ (c, e, s). cc, (refl, refl, inl (refl, refl)))
    read-Decides no_body = inr (λ (c, e, s). cc, (refl, refl, inl (refl, refl)))
    read-Decides (bad_status n) = inr (λ (c, e, s). cc, (refl, refl, inl (refl, refl)))
    read-Decides (content c) = elim (verify-Decides c) [
      | inl (s, good) ↦ inl ((c, refl, s), good)
      | inr (n, bad) ↦ inr (λ (c', e, s). n (subst IsSigned (cc e) s), bad)
    ]
