-- ===== src/ControlPlane/Launch.antt =====
-- A request for a rollout at the control plane (`CreateDeployment` of
-- backend/internal/handlers/deployments.go): its checks, the choice of the robots, the new rows and
-- the start. The parser of ids, the store of images, the clock and what the database gives of itself
-- are parameters. A threshold below zero stands as zero, and texts of refusals lack the values that
-- they quote.
pub mod Choice
pub mod Decides
pub mod Accepted
pub mod Whole
pub mod Back
pub mod Examples
use ota_robot_system.Base.{
  ℕ, ◌*◌, String, Bool, true, false, not, ◌&&◌, ◌||◌, Option, none, some, List, [], ◌∷◌, ◌++◌, map,
  filter, length, ltb, leb, ◌==◌, string_eq, nat_eq, truthy, if◌then◌else◌,
}
use ota_robot_system.Types.{
  Device, is_online, FirmwareVersion, Strategy, full, canary, Fraction, Deployment, pending,
  running, CreateDeploymentPayload,
}
use ota_robot_system.ControlPlane.Store.{
  Store, UnitRow, Command, update, get_firmware_version, get_device, update_deployment_status,
}
use ota_robot_system.ControlPlane.Canary.{Started, refused, direct, background, start_rollout}

-- The body of a request, where a missing field is empty or zero.
pub record CreateDeploymentRequest : Type 0 where
  pub firmware_id : String
  pub strategy : String
  pub hw_model : String
  pub device_ids : List String
  pub rollback_threshold : Fraction

pub record Services : Type 0 where
  -- the id that a text stands for
  pub parse_uuid : String → Option String
  -- the address of an image in the store, for half an hour
  pub presigned_get_object : String → Option String
  -- the id and the time of a new row
  pub new_id : Store → String
  pub now : Store → String
  -- `ORDER BY factory_id, created_at DESC`
  pub order : List Device → List Device

-- The answer with the tables that are left, or with the rollout that was started.
pub data Outcome : Type 0 where
  refusal : ℕ → String → Store → Outcome
  created : (id : String) (total : ℕ) (strategy : Strategy) → Started → Outcome

unfoldable pub strategy_of : String → Option Strategy
strategy_of t =
    if not (truthy t)
    then some canary
    else if t == "canary"
    then some canary
    else if t == "full"
    then some full
    else none

abbrev pub or_default : Fraction → Fraction
or_default f = if f.num == 0 then record { num = 20; den = 100 } else f

-- From 0.05 to 0.50.
abbrev pub is_in_range : Fraction → Bool
is_in_range f = not (ltb (f.num * 100) (5 * f.den)) && not (ltb (50 * f.den) (f.num * 100))

abbrev pub or_all : String → String
or_all hw_model = if truthy hw_model then hw_model else "all"

-- `targetHw == "all" || dev.HwModel == targetHw`.
abbrev pub fits : String → Device → Bool
fits target_hw d = target_hw == "all" || d.hw_model == target_hw

-- One more robot: a missing one is left out, one that does not fit refuses them all.
abbrev pub with_device : String → Option Device → Option (List Device) → Option (List Device)
with_device target_hw none others = others
with_device target_hw (some d) none = none
with_device target_hw (some d) (some ds) = if fits target_hw d then some (d ∷ ds) else none

-- The robots of some ids.
pub named : String → List String → Store → Option (List Device)
named target_hw [] s = some []
named target_hw (id ∷ ids) s = with_device target_hw (get_device id s) (named target_hw ids s)

module _ (w : Services) where
  pub choose : String → List String → Store → Option (List Device)
  unfolding named
  choose target_hw [] s = some (filter (λ d. is_online d && fits target_hw d) (w.order s.devices))
  choose target_hw (id ∷ ids) s = named target_hw (id ∷ ids) s

  abbrev initial_percentage : Strategy → ℕ
  initial_percentage strategy = elim strategy [ canary ↦ 20 | full ↦ 100 ]

  -- `INSERT INTO deployments`, with the columns' defaults.
  abbrev pub new_deployment : String → Strategy → ℕ → Fraction → Store → Deployment
  new_deployment fw_id strategy total threshold s = record {
    id = w.new_id s;
    firmware_version_id = fw_id;
    firmware_version = none;
    strategy = strategy;
    status = pending;
    canary_percentage = initial_percentage strategy;
    current_phase = 0;
    total_devices = total;
    success_count = 0;
    failure_count = 0;
    rollback_threshold = threshold;
    created_by = "operator";
    created_at = w.now s;
    started_at = none;
    completed_at = none;
  }

abbrev insert_deployment : Deployment → Store → Store
insert_deployment d s = record s { deployments = s.deployments ++ d ∷ [] }

-- `INSERT INTO deployment_devices`, with the columns' defaults.
abbrev pub new_unit : String → Device → UnitRow
new_unit id d = record {
  deployment_id = id;
  device_id = d.id;
  status = "pending";
  progress = 0;
  error_message = none;
  previous_version = some d.current_version;
}

pub insert_units : String → List Device → Store → Store
insert_units id ds s = record s { units = s.units ++ map (new_unit id) ds }

abbrev text_or_empty : Option String → String
text_or_empty o = elim o [ none ↦ "" | some t ↦ t ]

-- The command for the robots.
abbrev pub update_to : FirmwareVersion → String → String → Command
update_to fw target_hw url =
    update fw.version target_hw url fw.sha256_checksum (text_or_empty fw.ecdsa_signature)

pub concluded : String → ℕ → Strategy → Store → Started → Outcome
concluded id total strategy s (refused e) = refusal 500 "failed to start rollout" s
concluded id total strategy s (direct t) = created id total strategy (direct t)
concluded id total strategy s (background g) = created id total strategy (background g)

module _ (w : Services) where
  -- The tables with the rows of a new rollout of some robots.
  pub enlist : FirmwareVersion → Strategy → Fraction → List Device → Store → Store
  unfolding insert_units
  enlist fw strategy threshold ds s =
      let id = w.new_id s in
      insert_units id ds (
        update_deployment_status id running
          (insert_deployment (new_deployment w fw.id strategy (length ds) threshold s) s))

  pub launch :
      FirmwareVersion → String → Strategy → Fraction → String → List Device → Store → Outcome
  unfolding enlist concluded
  launch fw url strategy threshold target_hw [] s =
      refusal 400 "no eligible target devices found matching hardware model" s
  launch fw url strategy threshold target_hw (d ∷ ds) s =
      let t = enlist fw strategy threshold (d ∷ ds) s in
      concluded (w.new_id s) (length (d ∷ ds)) strategy t
        (start_rollout (w.new_id s) strategy (d ∷ ds) (update_to fw target_hw url) t)

  pub aimed :
      FirmwareVersion
      → String
      → Strategy
      → Fraction
      → String
      → Option (List Device)
      → Store
      → Outcome
  unfolding launch
  aimed fw url strategy threshold target_hw none s =
      refusal 400 "device has incompatible hardware model for deployment target" s
  aimed fw url strategy threshold target_hw (some ds) s =
      launch fw url strategy threshold target_hw ds s

  -- Behind the address of the image: the strategy, the threshold and the robots.
  pub planned :
      CreateDeploymentRequest → FirmwareVersion → String → Option Strategy → Store → Outcome
  unfolding aimed choose
  planned r fw url none s = refusal 400 "strategy must be canary or full" s
  planned r fw url (some strategy) s =
      let threshold = or_default r.rollback_threshold in
      if is_in_range threshold
      then aimed fw url strategy threshold (or_all r.hw_model)
          (choose w (or_all r.hw_model) r.device_ids s) s
      else refusal 400 "rollback_threshold must be between 0.05 and 0.50" s

  pub addressed : CreateDeploymentRequest → FirmwareVersion → Option String → Store → Outcome
  unfolding planned strategy_of
  addressed r fw none s = refusal 500 "failed to generate download URL" s
  addressed r fw (some url) s = planned r fw url (strategy_of r.strategy) s

  pub found : CreateDeploymentRequest → Option FirmwareVersion → Store → Outcome
  unfolding addressed
  found r none s = refusal 404 "firmware version not found" s
  found r (some fw) s = addressed r fw (w.presigned_get_object fw.storage_key) s

  pub identified : CreateDeploymentRequest → Option String → Store → Outcome
  unfolding found
  identified r none s = refusal 400 "invalid firmware_id UUID" s
  identified r (some id) s = found r (get_firmware_version id s) s

  -- `CreateDeployment`, of a body that could be read.
  unfoldable pub create_deployment : CreateDeploymentRequest → Store → Outcome
  unfolding identified
  create_deployment r s = identified r (w.parse_uuid r.firmware_id) s

strategy_name : Strategy → String
strategy_name canary = "canary"
strategy_name full = "full"

-- The request that the dashboard sends, as it is read here.
unfoldable pub received : CreateDeploymentPayload → CreateDeploymentRequest
unfolding strategy_name
received p = record {
  firmware_id = p.firmware_id;
  strategy = strategy_name p.strategy;
  hw_model = p.hw_model;
  device_ids = p.device_ids;
  rollback_threshold = p.rollback_threshold;
}
