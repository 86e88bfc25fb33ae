-- ===== src/ControlPlane/Store/Active.antt =====
-- The active row of a robot after its report was written to it.
use ota_robot_system.Base.{
  ℕ, ◌≡◌, refl, ◌∙◌, ap, String, Bool, true, false, ◌&&◌, Option, none, some, List, [], ◌∷◌, map,
  ◌==◌, string_eq, eq_iff, eq_refl, arith, Bool-cases, inl, inr, if◌then◌else◌,
}
use ota_robot_system.Types.{Deployment}
use ota_robot_system.ControlPlane.Store.{
  Store, UnitRow, get_deployment, is_running, later_or, last_such, is_active,
  get_active_deployment_device_by_device, update_deployment_device_status,
}

abbrev of_option : (UnitRow → UnitRow) → Option UnitRow → Option UnitRow
of_option f none = none
of_option f (some u) = some (f u)

module _ (p : UnitRow → Bool) where
  later_or-of_option :
      (f : UnitRow → UnitRow) (a b : Option UnitRow)
      → later_or (of_option f a) (of_option f b) ≡ of_option f (later_or a b)
  later_or-of_option f none b = refl
  later_or-of_option f (some u) b = refl

  test-of_option :
      (f : UnitRow → UnitRow) (b : Bool) (u : UnitRow)
      → (if b then some (f u) else none) ≡ of_option f (if b then some u else none)
  test-of_option f true u = refl
  test-of_option f false u = refl

  -- A change of the rows that the test does not see.
  last_such-map :
      (f : UnitRow → UnitRow) (us : List UnitRow)
      → ((u : UnitRow) → p (f u) ≡ p u)
      → last_such p (map f us) ≡ of_option f (last_such p us)
  unfolding last_such
  last_such-map f [] h = refl
  last_such-map f (u ∷ us) h =
      rw (last_such-map f us h, h u, test-of_option f (p u) u)
        (later_or-of_option f (last_such p us) (if p u then some u else none))

  later_or-passes :
      (o : Option UnitRow) (b : Bool) (u v : UnitRow)
      → p u ≡ b
      → (o ≡ some v → p v ≡ true)
      → later_or o (if b then some u else none) ≡ some v
      → p v ≡ true
  later_or-passes (some t) b u v e k h = k h
  later_or-passes none true u v e k h = let q : u ≡ v = cc in rw (← q) e
  later_or-passes none false u v e k h = cc

  last_such-passes : (us : List UnitRow) (v : UnitRow) → last_such p us ≡ some v → p v ≡ true
  unfolding last_such
  last_such-passes [] v h = cc
  last_such-passes (u ∷ us) v h =
      later_or-passes (last_such p us) (p u) u v refl (last_such-passes us v) h

module _ (id status : String) (n : ℕ) (m : Option String) (u : UnitRow) (d : Deployment)
    (s : Store) where
  -- The report is written to the rows of the robot in the rollout.
  written : UnitRow → UnitRow
  written v =
      if v.deployment_id == u.deployment_id && v.device_id == id
      then record v { status = status; progress = n; error_message = m }
      else v

  passes : UnitRow → Bool
  passes v = v.device_id == id && is_active v (get_deployment v.deployment_id s)

  passes-written :
      get_deployment u.deployment_id s ≡ some d
      → is_running d.status ≡ true
      → (v : UnitRow) → passes (written v) ≡ passes v
  unfolding written passes is_active
  passes-written g r v =
      elim (Bool-cases (v.deployment_id == u.deployment_id && v.device_id == id)) [
        | inr e ↦ rw e refl
        | inl e ↦
            let i : v.deployment_id ≡ u.deployment_id =
              ground (arith, e, eq_iff v.deployment_id u.deployment_id) in
            rw (e, i, g, r) refl
      ]

  -- While the rollout runs, the active row of the robot stays active and has what was reported.
  pub active-update_deployment_device_status :
      get_active_deployment_device_by_device id s ≡ some u
      → get_deployment u.deployment_id s ≡ some d
      → is_running d.status ≡ true
      → get_active_deployment_device_by_device id
          (update_deployment_device_status u.deployment_id id status n m s)
        ≡ some (record u { status = status; progress = n; error_message = m })
  unfolding get_active_deployment_device_by_device update_deployment_device_status written passes
  active-update_deployment_device_status a g r =
      let q = last_such-passes passes s.units u a in
      let k : (u.deployment_id == u.deployment_id && u.device_id == id) ≡ true =
        ground (arith, q, eq_refl u.deployment_id) in
      last_such-map passes written s.units (passes-written g r)
      ∙ ap (of_option written) a
      ∙ rw k refl
