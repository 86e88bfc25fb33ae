-- ===== src/Agent/Safety.antt =====
-- A robot runs a new version only if every check of the command has passed.
use mathlib.Core.Path.{subst}
use ota_robot_system.Base.{
  ◌≡◌, refl, sym, ◌⊎◌, inl, inr, String, true, false, ◌&&◌, some, ltb, ◌==◌, nat_eq, string_eq,
  arith, eq_iff, Bool-cases,
}
use ota_robot_system.Agent.StateMachine.{downloading, cmd_update, trigger}
use ota_robot_system.Agent.{
  Robot, Update, Surroundings, fire, refuse, download, is_incompatible, check, handle_update,
}
use ota_robot_system.Agent.Image.{Accepted, Decides, at, Brings, read-Decides}

module _ {ℓ} {C : Type ℓ} (w : Surroundings C) (cmd : Update) where
  -- The model of the command is any, or this robot's.
  compatible :
      is_incompatible w cmd ≡ false
      → (cmd.hw_model ≡ "") ⊎ (cmd.hw_model ≡ "all") ⊎ (cmd.hw_model ≡ w.hw_model)
  unfolding is_incompatible
  compatible h = elim (Bool-cases (cmd.hw_model == "")) [
    | inl a ↦ inl ((eq_iff cmd.hw_model "").0 a)
    | inr a ↦ elim (Bool-cases (cmd.hw_model == "all")) [
      | inl b ↦ inr (inl ((eq_iff cmd.hw_model "all").0 b))
      | inr b ↦ inr (inr (ground (arith, h, a, b, eq_iff cmd.hw_model w.hw_model)))
    ]
  ]

  incompatible :
      is_incompatible w cmd ≡ true
      → ¬ ((cmd.hw_model ≡ "") ⊎ (cmd.hw_model ≡ "all") ⊎ (cmd.hw_model ≡ w.hw_model))
  unfolding is_incompatible
  incompatible h (inl e) = ground (arith, h, eq_iff cmd.hw_model "")
  incompatible h (inr (inl e)) = ground (arith, h, eq_iff cmd.hw_model "all")
  incompatible h (inr (inr e)) = ground (arith, h, eq_iff cmd.hw_model w.hw_model)

  download-Decides :
      (v t : String)
      → Decides w cmd
          (Brings w cmd (w.fetch cmd.download_url))
          v
          (download w cmd (at w cmd v t downloading))
  unfolding download
  download-Decides v t = read-Decides w cmd v "updating" (w.fetch cmd.download_url)

  check-Decides :
      (v t : String) → Decides w cmd (Accepted w cmd) v (check w cmd (at w cmd v t downloading))
  unfolding check refuse fire
  check-Decides v t = elim (Bool-cases (w.configured_activity == "idle")) [
    | inr a ↦ inr (
      λ s. ground (arith, a, s.0, eq_iff w.configured_activity "idle"),
      rw a (refl, refl, inl (refl, refl)),
    )
    | inl a ↦ elim (Bool-cases (w.is_agv && ltb w.current_battery 50)) [
      | inl b ↦ inr (λ s. cc, rw (a, b) (refl, refl, inl (refl, refl)))
      | inr b ↦ elim (Bool-cases (is_incompatible w cmd)) [
        | inl m ↦ inr (λ s. incompatible m (s.2), rw (a, b, m) (refl, refl, inl (refl, refl)))
        | inr m ↦ elim (Bool-cases w.has_key) [
          | inr k ↦ inr (λ s. cc, rw (a, b, m, k) (refl, refl, inl (refl, refl)))
          | inl k ↦
              let e : check w cmd (at w cmd v t downloading)
                  ≡ download w cmd (at w cmd v t downloading) =
                rw (a, b, m, k) refl in
              subst (Decides w cmd (Accepted w cmd) v) (sym e) (elim (download-Decides v t) [
                | inl (s, good) ↦
                    inl (((eq_iff w.configured_activity "idle").0 a, b, compatible m, k, s), good)
                | inr (n, bad) ↦ inr (λ s. n (s.4), bad)
              ])
        ]
      ]
    ]
  ]

  -- A command for an update at a robot that takes one: if the robot is idle, charged if it is a
  -- vehicle, of a model that the command is for, has its key, and downloads an image with the
  -- checksum of the command that is validly signed and flashed without a fault, then the robot runs
  -- the version of the command, is online and reports a success; and if any of this fails, it keeps
  -- the version that it had, reports no success, and is online again or in error.
  pub handle_update-Decides :
      (r : Robot)
      → trigger r.fsm cmd_update ≡ some downloading
      → Decides w cmd (Accepted w cmd) r.current_version (handle_update w cmd r)
  unfolding handle_update
  handle_update-Decides r e =
      let k : handle_update w cmd r
          ≡ check w cmd (at w cmd r.current_version r.status downloading) =
        rw e refl in
      subst (Decides w cmd (Accepted w cmd) r.current_version) (sym k)
        (check-Decides r.current_version r.status)
