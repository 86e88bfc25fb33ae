-- ===== src/Planning/Targets.antt =====
-- Which robots a rollout targets, and what the request for it names.
use mathlib.Core.List.{mem-map}
use mathlib.Core.Logic.{∥∥₁_map}
use ota_robot_system.Base.{
  ◌≡◌, ◌↔◌, true, String, List, Mem, filter, includes, mem-filter, mem-includes, includes-mem, ◌==◌,
  string_eq, eq_iff,
}
use ota_robot_system.Types.{Device, is_online}
use ota_robot_system.Planning.{
  TargetScope, all, factory, custom, RolloutDraft, derive_eligible_devices, derive_target_devices,
  prepare_deployment_payload,
}

-- What the operator chose, in words.
abbrev pub Chosen : TargetScope → String → List String → Device → Type 0
Chosen all f ids d = Unit {0}
Chosen factory f ids d = d.factory_id ≡ f
Chosen custom f ids d = Mem d.id ids

-- A robot is targeted exactly when it is in the fleet, online, and chosen: as any robot, by its
-- factory, or by its id, according to the scope.
pub mem-derive_target_devices :
    (devices : List Device) (scope : TargetScope) (f : String) (ids : List String) (d : Device)
    → Mem d (derive_target_devices (derive_eligible_devices devices) scope f ids)
      ↔ (Mem d devices × (is_online d ≡ true) × Chosen scope f ids d)
unfolding derive_target_devices derive_eligible_devices
mem-derive_target_devices devices all f ids d =
    let (there, back) = mem-filter is_online devices d in
    (λ m. ((there m).0, (there m).1, tt), λ h. back (h.0, h.1))
mem-derive_target_devices devices factory f ids d = (
  λ m.
      let (k, t) = (mem-filter (λ c. c.factory_id == f) (filter is_online devices) d).0 m in
      let (u, v) = (mem-filter is_online devices d).0 k in (u, v, (eq_iff _ _).0 t),
  λ h.
      (mem-filter (λ c. c.factory_id == f) (filter is_online devices) d).1
        ((mem-filter is_online devices d).1 (h.0, h.1), (eq_iff _ _).1 h.2),
)
mem-derive_target_devices devices custom f ids d = (
  λ m.
      let (k, t) = (mem-filter (λ c. includes ids c.id) (filter is_online devices) d).0 m in
      let (u, v) = (mem-filter is_online devices d).0 k in (u, v, includes-mem ids d.id t),
  λ h.
      (mem-filter (λ c. includes ids c.id) (filter is_online devices) d).1
        ((mem-filter is_online devices d).1 (h.0, h.1), mem-includes ids d.id h.2),
)

-- The request names a robot's id exactly when that robot is targeted: an online robot of the
-- fleet that the draft's scope chooses.
pub mem-prepare_deployment_payload :
    (devices : List Device) (draft : RolloutDraft) (i : String)
    → Mem i
        (prepare_deployment_payload draft (
          derive_target_devices
            (derive_eligible_devices devices)
            draft.target_scope
            draft.selected_factory
            draft.selected_device_ids)).device_ids
      ↔ ∥ (
          (d : Device) × Mem d devices
          × (is_online d ≡ true)
          × Chosen draft.target_scope draft.selected_factory draft.selected_device_ids d
          × (d.id ≡ i)) ∥₁
unfolding prepare_deployment_payload
mem-prepare_deployment_payload devices draft i = (
  λ m. ∥∥₁_map (mem-map.0 m) (λ (d, k, e). let (u, v, w) = (targets d).0 k in (d, u, v, w, e)),
  λ h. mem-map.1 (∥∥₁_map h (λ (d, u, v, w, e). (d, (targets d).1 (u, v, w), e))),
)
  where
    targets :
        (d : Device)
        → Mem d (
            derive_target_devices
              (derive_eligible_devices devices)
              draft.target_scope
              draft.selected_factory
              draft.selected_device_ids)
          ↔ (Mem d devices
              × (is_online d ≡ true)
              × Chosen draft.target_scope draft.selected_factory draft.selected_device_ids d)
    targets =
        mem-derive_target_devices devices draft.target_scope draft.selected_factory
          draft.selected_device_ids
