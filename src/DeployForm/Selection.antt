-- ===== src/DeployForm/Selection.antt =====
-- Choosing robots by hand, and what the page's address chooses.
use mathlib.Core.List.{not-mem-nil}
use mathlib.Core.Path.{subst₂}
use ota_robot_system.Base.{
  ◌≡◌, ◌≢◌, ◌↔◌, String, true, false, not, Option, some, List, [], ◌∷◌, filter, includes,
  includes-append, length, truthy_iff, nat_beq_iff, ◌==◌, nat_eq, string_eq, if◌then◌else◌, Mem,
  includes-mem, mem-includes, arith, eq_iff,
}
use ota_robot_system.Types.{Device, FirmwareVersion, is_online}
use ota_robot_system.Types.Reply.{resolved}
use ota_robot_system.Planning.{TargetScope, custom, derive_eligible_devices, derive_target_devices}
use ota_robot_system.Planning.Targets.{mem-derive_target_devices}
use ota_robot_system.DeployForm.{
  Form, eligible_devices, target_devices, toggle_device_selection, select_all_custom, fetch_settle,
  received, choose_device,
}

includes-without :
    (ts : List String) (x y : String)
    → includes (filter (λ d. not (d == x)) ts) y ≡ (if x == y then false else includes ts y)
includes-without [] x y = ground arith
includes-without (t ∷ ts) x y =
    ground (arith, includes-without ts x y, eq_iff t x, eq_iff t y, eq_iff x y)

-- A click on a robot's box turns that robot's choice round and leaves every other choice.
pub includes-toggle_device_selection :
    (id other : String) (s : Form)
    → includes (toggle_device_selection id s).selected_device_ids other ≡ (
        if id == other
        then not (includes s.selected_device_ids id)
        else includes s.selected_device_ids other)
unfolding toggle_device_selection
includes-toggle_device_selection id other s = ground (
  arith,
  includes-append s.selected_device_ids id other,
  includes-without s.selected_device_ids id other,
  eq_iff id other,
)

mem-one : (x y : String) → Mem y (x ∷ []) ↔ (y ≡ x)
mem-one x y = (
  λ m. let h = mem-includes (x ∷ []) y m in ground (arith, h, eq_iff x y),
  λ e. includes-mem (x ∷ []) y (ground (arith, e, eq_iff x y)),
)

untargeted :
    (devices : List Device) (scope : TargetScope) (f : String) (ids : List String) (d : Device)
    → scope ≡ custom
    → ids ≡ []
    → ¬ Mem d (derive_target_devices (derive_eligible_devices devices) scope f ids)
untargeted devices scope f ids d c e m =
    let k = (mem-derive_target_devices devices custom f [] d).0 (
      subst₂ (λ k i. Mem d (derive_target_devices (derive_eligible_devices devices) k f i)) c e
        m) in
    not-mem-nil k.2

-- The button for all robots clears the choice whenever as many ids are chosen as robots are
-- online, though the ids may be those of other robots; then no robot is targeted.
pub select_all_custom-clears :
    (s : Form)
    → s.target_scope ≡ custom
    → length s.selected_device_ids ≡ length (eligible_devices s)
    → ((select_all_custom s).selected_device_ids ≡ [])
      × ((d : Device) → ¬ Mem d (target_devices (select_all_custom s)))
unfolding select_all_custom
select_all_custom-clears s c e =
    let cleared : (select_all_custom s).selected_device_ids ≡ [] = rw (
      (nat_beq_iff (length s.selected_device_ids) (length (eligible_devices s))).1 e,
      select_all_custom,
    ) in
    (cleared, λ d m. untargeted s.devices s.target_scope s.selected_factory _ d c cleared m)

-- With a robot named in the page's address, and both lists received, exactly that robot is
-- targeted, provided that it is in the fleet and online; otherwise no robot is.
pub fetch_settle-preselected :
    (fw : Option String) (wanted : String) (fws : List FirmwareVersion) (devs : List Device)
    (s : Form)
    → wanted ≢ ""
    → (d : Device)
    → Mem d (target_devices (fetch_settle fw (some wanted) (resolved (some fws, some devs)) s))
      ↔ (Mem d devs × (is_online d ≡ true) × (d.id ≡ wanted))
unfolding fetch_settle received choose_device
fetch_settle-preselected fw wanted fws devs s w d =
    let (there, back) = mem-derive_target_devices devs custom s.selected_factory (wanted ∷ []) d in
    let (one, two) = mem-one wanted d.id in
    rw ((truthy_iff wanted).1 w)
      (λ m. let k = there m in (k.0, k.1, one k.2), λ h. back (h.0, h.1, two h.2))
