-- ===== src/Planning.antt =====
-- The planning of a rollout (frontend/src/lib/planning.ts).
pub mod Targets
pub mod Counts
pub mod Factories
pub mod Examples
use ota_robot_system.Base.{
  ℕ, ◌+◌, ◌-◌, ◌/◌, max, String, Bool, false, Option, none, some, List, [], ◌∷◌, ◌++◌, map, filter,
  includes, length, truthy, ltb, ◌&&◌, ◌==◌, string_eq, nat_eq, if◌then◌else◌, concat,
}
use ota_robot_system.Types.{
  Device, is_online, FirmwareVersion, Strategy, full, canary, CreateDeploymentPayload,
}

pub data TargetScope : Type 0 where
  all factory custom : TargetScope

pub record RolloutDraft : Type 0 where
  pub selected_fw_id : String
  pub target_scope : TargetScope
  pub selected_factory : String
  pub selected_device_ids : List String
  pub strategy : Strategy
  pub rollback_threshold : ℕ

pub record RolloutValidationResult : Type 0 where
  pub is_valid : Bool
  pub errors : List String
  pub warnings : List String
  pub has_hardware_mismatch : Bool
  pub mismatched_devices : List Device
  pub sentinel_count : ℕ
  pub subsequent_count : ℕ

-- `s.add(x)` on a `Set`, kept in the order of insertion.
unfoldable pub add : List String → String → List String
add s x = if includes s x then s else s ++ x ∷ []

unfoldable pub add_factories : List String → List Device → List String
unfolding add
add_factories s [] = s
add_factories s (d ∷ ds) = add_factories (if truthy d.factory_id then add s d.factory_id else s) ds

unfoldable pub derive_factories : List Device → List String
unfolding add_factories
derive_factories devices = add_factories [] devices

unfoldable pub derive_eligible_devices : List Device → List Device
derive_eligible_devices devices = filter is_online devices

unfoldable pub derive_target_devices :
    List Device → TargetScope → String → List String → List Device
derive_target_devices eligible all selected_factory ids = eligible
derive_target_devices eligible factory selected_factory ids =
    filter (λ d. d.factory_id == selected_factory) eligible
derive_target_devices eligible custom selected_factory ids =
    filter (λ d. includes ids d.id) eligible

-- The warnings for the devices that run the target version already.
version_warnings : FirmwareVersion → List Device → List String
version_warnings fw [] = []
version_warnings fw (dev ∷ devices) =
    let rest = version_warnings fw devices in
    if dev.current_version == fw.version
    then concat "Device "
        (concat dev.name (concat " is already running target version " (concat fw.version ".")))
      ∷ rest
    else rest

firmware_warnings : Option FirmwareVersion → List Device → List String
unfolding version_warnings
firmware_warnings none devices = []
firmware_warnings (some fw) devices = version_warnings fw devices

rollout_errors : RolloutDraft → List Device → List String
rollout_errors draft targets =
    (if truthy draft.selected_fw_id then [] else "No firmware version selected." ∷ [])
    ++ (if length targets == 0
        then "No eligible online devices selected for deployment." ∷ []
        else [])

-- `Math.max(1, Math.ceil(n * 0.20))`. The double nearest to 0.2 exceeds it by 2 ^ -54 of it, so
-- the rounded product is n / 5 exactly where 5 divides n, and `ceil` rounds as for the fraction.
unfoldable pub sentinels : Strategy → ℕ → ℕ
sentinels full n = n
sentinels canary n = if ltb 0 n then max 1 ((n + 4) / 5) else n

subsequents : Strategy → ℕ → ℕ
unfolding sentinels
subsequents full n = 0
subsequents canary n = if ltb 0 n then n - sentinels canary n else 0

unfoldable pub evaluate_rollout_plan :
    RolloutDraft → List Device → Option FirmwareVersion → RolloutValidationResult
unfolding firmware_warnings rollout_errors subsequents
evaluate_rollout_plan draft targets fw = record {
  is_valid = length (rollout_errors draft targets) == 0;
  errors = rollout_errors draft targets;
  warnings = firmware_warnings fw targets;
  has_hardware_mismatch = ltb 0 (length {A = Device} []);
  mismatched_devices = [];
  sentinel_count = sentinels draft.strategy (length targets);
  subsequent_count = subsequents draft.strategy (length targets);
}

unfoldable pub prepare_deployment_payload : RolloutDraft → List Device → CreateDeploymentPayload
prepare_deployment_payload draft targets = record {
  firmware_id = draft.selected_fw_id;
  strategy = draft.strategy;
  hw_model = "all";
  device_ids = map (λ d. d.id) targets;
  rollback_threshold = record { num = draft.rollback_threshold; den = 100 };
}
