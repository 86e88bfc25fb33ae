-- ===== src/ControlPlane/Launch/Accepted.antt =====
-- What a request that fits the tables starts, and the rows of the new rollout.
use ota_robot_system.Base.{
  ℕ, ◌≤◌, ◌≡◌, ◌≢◌, refl, ap, String, true, none, some, List, [], ◌∷◌, ◌++◌, All, map, filter,
  length, ◌==◌, nat_eq, string_eq, eq_refl, arith, Bool-cases, inl, inr,
}
use ota_robot_system.Types.{
  Device, FirmwareVersion, Strategy, full, canary, Fraction, Deployment, running,
  CreateDeploymentPayload,
}
use ota_robot_system.ControlPlane.Store.{
  Store, UnitRow, get_firmware_version, get_device, find_deployment, get_deployment, with_status,
  list_deployment_devices, update_deployment_status,
}
use ota_robot_system.ControlPlane.Manager.Rows.{find_deployment-change}
use ota_robot_system.ControlPlane.Canary.{start}
use ota_robot_system.ControlPlane.Launch.{
  Services, created, strategy_of, strategy_name, or_default, is_in_range, or_all, fits, named,
  choose, update_to, new_deployment, new_unit, insert_units, enlist, aimed, planned, addressed,
  found, identified, create_deployment, received,
}
use ota_robot_system.ControlPlane.Launch.Decides.{concluded-start_rollout}

-- A row of the table that fits.
abbrev pub IsFitting : String → Store → Device → Type 0
IsFitting target_hw s d = (get_device d.id s ≡ some d) × (fits target_hw d ≡ true)

named-map :
    (target_hw : String) (ds : List Device) (s : Store)
    → All (IsFitting target_hw s) ds
    → named target_hw (map (λ d. d.id) ds) s ≡ some ds
unfolding named
named-map hw [] s h = refl
named-map hw (d ∷ ds) s h = rw (h.0.0, named-map hw ds s h.1, h.0.1) refl

strategy_of-strategy_name : (st : Strategy) → strategy_of (strategy_name st) ≡ some st
unfolding strategy_of strategy_name
strategy_of-strategy_name full = refl
strategy_of-strategy_name canary = refl

abbrev hundredths : ℕ → Fraction
hundredths k = record { num = k; den = 100 }

or_default-hundredths : (k : ℕ) → 5 ≤ k → or_default (hundredths k) ≡ hundredths k
or_default-hundredths k h = ground (arith, h)

is_in_range-hundredths : (k : ℕ) → 5 ≤ k → k ≤ 50 → is_in_range (hundredths k) ≡ true
is_in_range-hundredths k h j = ground (arith, h, j)

-- A request of the dashboard for robots of the table that fit its model, with a threshold from 5 to
-- 50 hundredths and a firmware that is there, starts a rollout of exactly these robots.
pub create_deployment-received :
    (w : Services) (p : CreateDeploymentPayload) (fw_id url : String) (fw : FirmwareVersion) (k : ℕ)
    (ds : List Device) (s : Store)
    → w.parse_uuid p.firmware_id ≡ some fw_id
    → get_firmware_version fw_id s ≡ some fw
    → w.presigned_get_object fw.storage_key ≡ some url
    → p.rollback_threshold ≡ record { num = k; den = 100 }
    → 5 ≤ k
    → k ≤ 50
    → ds ≢ []
    → p.device_ids ≡ map (λ d. d.id) ds
    → All (IsFitting (or_all p.hw_model) s) ds
    → create_deployment w (received p) s
      ≡ created (w.new_id s) (length ds) p.strategy (
          start
            (w.new_id s)
            p.strategy
            ds
            (update_to fw (or_all p.hw_model) url)
            (enlist w fw p.strategy (record { num = k; den = 100 }) ds s))
unfolding create_deployment received identified found addressed planned aimed choose
create_deployment-received w p fw_id url fw k [] s a b c t l m n i h = absurd (n refl)
create_deployment-received w p fw_id url fw k (d ∷ ds) s a b c t l m n i h =
    rw
      (
        a,
        b,
        c,
        strategy_of-strategy_name p.strategy,
        t,
        or_default-hundredths k l,
        is_in_range-hundredths k l m,
        i,
        named-map (or_all p.hw_model) (d ∷ ds) s h,
      )
      (let t = enlist w fw p.strategy (hundredths k) (d ∷ ds) s in
        concluded-start_rollout (w.new_id s) (length (d ∷ ds)) p.strategy d ds
          (update_to fw (or_all p.hw_model) url) t t)

find_deployment-new :
    (ds : List Deployment) (d : Deployment)
    → find_deployment d.id ds ≡ none
    → find_deployment d.id (ds ++ d ∷ []) ≡ some d
find_deployment-new [] d h = rw (eq_refl d.id) refl
find_deployment-new (c ∷ ds) d h = ground (arith, h, find_deployment-new ds d)

filter-new_unit :
    (id : String) (us : List UnitRow) (ds : List Device)
    → filter (λ u. u.deployment_id == id) us ≡ []
    → filter (λ u. u.deployment_id == id) (us ++ map (new_unit id) ds) ≡ map (new_unit id) ds
filter-new_unit id [] [] h = refl
filter-new_unit id [] (d ∷ ds) h =
    rw (eq_refl id) (ap (new_unit id d ∷◌) (filter-new_unit id [] ds h))
filter-new_unit id (u ∷ us) ds h = elim (Bool-cases (u.deployment_id == id)) [
  | inl e ↦ absurd (let k : u ∷ filter (λ u. u.deployment_id == id) us ≡ [] = rw e at h in cc)
  | inr e ↦ rw e (filter-new_unit id us ds (rw e at h))
]

-- No command is sent by the rows.
pub enlist-commands :
    (w : Services) (fw : FirmwareVersion) (strategy : Strategy) (threshold : Fraction)
    (ds : List Device) (s : Store)
    → (enlist w fw strategy threshold ds s).commands ≡ s.commands
unfolding enlist insert_units update_deployment_status
enlist-commands w fw strategy threshold ds s = refl

-- The rows of a new rollout of some robots, if its id is new: it runs, with as many targets as there
-- are robots and none counted, each robot has a part with the version that it runs, and no command
-- is sent yet.
pub enlist_lem :
    (w : Services) (fw : FirmwareVersion) (strategy : Strategy) (threshold : Fraction)
    (ds : List Device) (s : Store)
    → get_deployment (w.new_id s) s ≡ none
    → list_deployment_devices (w.new_id s) s ≡ []
    → let t = enlist w fw strategy threshold ds s in
      (get_deployment (w.new_id s) t
        ≡ some (with_status running (new_deployment w fw.id strategy (length ds) threshold s)))
      × (list_deployment_devices (w.new_id s) t ≡ map (new_unit (w.new_id s)) ds)
      × (t.commands ≡ s.commands)
unfolding enlist insert_units update_deployment_status
enlist_lem w fw strategy threshold ds s n u =
    let d = new_deployment w fw.id strategy (length ds) threshold s in
    (
      find_deployment-change d.id (with_status running) (s.deployments ++ d ∷ []) d (λ c. refl)
          (find_deployment-new s.deployments d n),
      filter-new_unit d.id s.units ds u,
      refl,
    )
