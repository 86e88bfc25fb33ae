-- ===== src/SideBar/Links.antt =====
-- At most one link of the side bar is lit.
use ota_robot_system.Base.{
  ◌≡◌, refl, sym, String, Bool, true, false, not, ◌&&◌, ◌||◌, starts_with, starts_with-both, ◌==◌,
  string_eq, concat, arith, eq_iff, Bool-cases, inl, inr,
}
use ota_robot_system.SideBar.{
  NavItem, fleet_overview, firmware_catalog, launch_rollout, rollout_history, href, is_active,
}

-- Two links that are no beginnings of each other, as pages and as folders.
abbrev apart : String → String → Bool
apart h k =
    not (is_active h k)
    && not (is_active k h)
    && (h == "/"
        || k == "/"
        || not (
            starts_with (concat h "/") (concat k "/") || starts_with (concat k "/") (concat h "/")))

as_folder :
    (p h : String)
    → is_active p h ≡ true
    → (p == h) ≡ false
    → (starts_with p (concat h "/") ≡ true) × ((h == "/") ≡ false)
unfolding is_active
as_folder p h x e = (ground arith, ground arith)

not_both : (p h k : String) → apart h k ≡ true → is_active p h ≡ true → is_active p k ≡ true → ⊥
not_both p h k a x y = elim (Bool-cases (p == h)) [
  | inl e ↦
      let z : is_active h k ≡ true = rw (sym ((eq_iff p h).0 e)) y in absurd (ground (arith, z))
  | inr e ↦ elim (Bool-cases (p == k)) [
    | inl f ↦
        let z : is_active k h ≡ true = rw (sym ((eq_iff p k).0 f)) x in absurd (ground (arith, z))
    | inr f ↦
        let v = as_folder p h x e in
        let w = as_folder p k y f in
        absurd (ground (arith, v.1, w.1, starts_with-both p (concat h "/") (concat k "/") v.0 w.0))
  ]
]

-- On every page at most one link is lit: two links that are lit are the same one.
pub is_active_unique :
    (p : String) (a b : NavItem) → is_active p (href a) ≡ true → is_active p (href b) ≡ true → a ≡ b
unfolding is_active starts_with
is_active_unique p fleet_overview fleet_overview x y = refl
is_active_unique p fleet_overview firmware_catalog x y =
    absurd (not_both p "/" "/firmware" refl x y)
is_active_unique p fleet_overview launch_rollout x y = absurd (not_both p "/" "/deploy" refl x y)
is_active_unique p fleet_overview rollout_history x y =
    absurd (not_both p "/" "/deployments" refl x y)
is_active_unique p firmware_catalog fleet_overview x y =
    absurd (not_both p "/firmware" "/" refl x y)
is_active_unique p firmware_catalog firmware_catalog x y = refl
is_active_unique p firmware_catalog launch_rollout x y =
    absurd (not_both p "/firmware" "/deploy" refl x y)
is_active_unique p firmware_catalog rollout_history x y =
    absurd (not_both p "/firmware" "/deployments" refl x y)
is_active_unique p launch_rollout fleet_overview x y = absurd (not_both p "/deploy" "/" refl x y)
is_active_unique p launch_rollout firmware_catalog x y =
    absurd (not_both p "/deploy" "/firmware" refl x y)
is_active_unique p launch_rollout launch_rollout x y = refl
is_active_unique p launch_rollout rollout_history x y =
    absurd (not_both p "/deploy" "/deployments" refl x y)
is_active_unique p rollout_history fleet_overview x y =
    absurd (not_both p "/deployments" "/" refl x y)
is_active_unique p rollout_history firmware_catalog x y =
    absurd (not_both p "/deployments" "/firmware" refl x y)
is_active_unique p rollout_history launch_rollout x y =
    absurd (not_both p "/deployments" "/deploy" refl x y)
is_active_unique p rollout_history rollout_history x y = refl
