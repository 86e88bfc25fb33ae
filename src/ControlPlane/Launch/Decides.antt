-- ===== src/ControlPlane/Launch/Decides.antt =====
-- Every request for a rollout is refused without a trace or starts a rollout of what it chooses.
use ota_robot_system.Base.{
  ℕ, ◌*◌, ◌≤◌, ◌≡◌, ◌≢◌, refl, String, true, Option, none, some, List, [], ◌∷◌, All, Mem, length,
  nat_eq, arith, Bool-cases, ◌⊎◌, inl, inr,
}
use ota_robot_system.Types.{Device, FirmwareVersion, Strategy, full, canary, Fraction}
use ota_robot_system.ControlPlane.Store.{Store, Command, get_firmware_version}
use ota_robot_system.ControlPlane.Canary.{start, start_rollout}
use ota_robot_system.ControlPlane.Launch.{
  CreateDeploymentRequest, Services, Outcome, refusal, created, strategy_of, or_default,
  is_in_range, or_all, choose, update_to, concluded, enlist, launch, aimed, planned, addressed,
  found, identified, create_deployment,
}
use ota_robot_system.ControlPlane.Launch.Choice.{IsChosen, choose-All}

-- A request that was taken: what it is about, and what was started.
pub record Accepts (w : Services) (r : CreateDeploymentRequest) (s : Store) (o : Outcome)
    : Type 0 where
  pub firmware : FirmwareVersion
  pub url : String
  pub strategy : Strategy
  pub threshold : Fraction
  pub targets : List Device
  pub has_targets : targets ≢ []
  pub chosen : All (IsChosen (or_all r.hw_model) r.device_ids s) targets
  pub lowest : 5 * threshold.den ≤ threshold.num * 100
  pub highest : threshold.num * 100 ≤ 50 * threshold.den
  pub starts :
      o
      ≡ created (w.new_id s) (length targets) strategy (
          start
            (w.new_id s)
            strategy
            targets
            (update_to firmware (or_all r.hw_model) url)
            (enlist w firmware strategy threshold targets s))

-- A refusal that leaves the tables as they were.
abbrev pub Refuses : Store → Outcome → Type 0
Refuses s o = (status : ℕ) × (message : String) × (o ≡ refusal status message s)

pub concluded-start_rollout :
    (id : String) (n : ℕ) (strategy : Strategy) (d : Device) (ds : List Device) (c : Command)
    (s t : Store)
    → concluded id n strategy s (start_rollout id strategy (d ∷ ds) c t)
      ≡ created id n strategy (start id strategy (d ∷ ds) c t)
unfolding concluded start_rollout start
concluded-start_rollout id n full d ds c s t = refl
concluded-start_rollout id n canary d ds c s t = refl

module _ (w : Services) (r : CreateDeploymentRequest) (s : Store) where
  abbrev Decided : Outcome → Type 0
  Decided o = Refuses s o ⊎ Accepts w r s o

  -- The robots of the database come from its table.
  module _ (rows : (d : Device) → Mem d (w.order s.devices) → Mem d s.devices) where
    aimed-Decided :
        (fw : FirmwareVersion) (url : String) (strategy : Strategy) (threshold : Fraction)
        (o : Option (List Device))
        → choose w (or_all r.hw_model) r.device_ids s ≡ o
        → is_in_range threshold ≡ true
        → Decided (aimed w fw url strategy threshold (or_all r.hw_model) o s)
    unfolding aimed launch
    aimed-Decided fw url strategy threshold none e t =
        inl (400, "device has incompatible hardware model for deployment target", refl)
    aimed-Decided fw url strategy threshold (some []) e t =
        inl (400, "no eligible target devices found matching hardware model", refl)
    aimed-Decided fw url strategy threshold (some (d ∷ ds)) e t = inr (record {
      firmware = fw;
      url = url;
      strategy = strategy;
      threshold = threshold;
      targets = d ∷ ds;
      has_targets = λ q. cc;
      chosen = choose-All w (or_all r.hw_model) r.device_ids s (d ∷ ds) rows e;
      lowest = ground (arith, t);
      highest = ground (arith, t);
      starts =
          let t = enlist w fw strategy threshold (d ∷ ds) s in
          concluded-start_rollout (w.new_id s) (length (d ∷ ds)) strategy d ds
            (update_to fw (or_all r.hw_model) url) t t;
    })

    planned-Decided :
        (fw : FirmwareVersion) (url : String) (o : Option Strategy)
        → Decided (planned w r fw url o s)
    unfolding planned
    planned-Decided fw url none = inl (400, "strategy must be canary or full", refl)
    planned-Decided fw url (some strategy) =
        let threshold = or_default r.rollback_threshold in
        elim (Bool-cases (is_in_range threshold)) [
          | inl e ↦ rw e (
              aimed-Decided fw url strategy threshold (choose w (or_all r.hw_model) r.device_ids s)
                refl e)
          | inr e ↦ rw e (inl (400, "rollback_threshold must be between 0.05 and 0.50", refl))
        ]

    addressed-Decided : (fw : FirmwareVersion) (o : Option String) → Decided (addressed w r fw o s)
    unfolding addressed
    addressed-Decided fw none = inl (500, "failed to generate download URL", refl)
    addressed-Decided fw (some url) = planned-Decided fw url (strategy_of r.strategy)

    found-Decided : (o : Option FirmwareVersion) → Decided (found w r o s)
    unfolding found
    found-Decided none = inl (404, "firmware version not found", refl)
    found-Decided (some fw) = addressed-Decided fw (w.presigned_get_object fw.storage_key)

    identified-Decided : (o : Option String) → Decided (identified w r o s)
    unfolding identified
    identified-Decided none = inl (400, "invalid firmware_id UUID", refl)
    identified-Decided (some id) = found-Decided (get_firmware_version id s)

    -- Every request for a rollout, if the order of the database is one of its rows: it is refused
    -- and leaves the tables as they were, or it starts a rollout of at least one robot, with a
    -- threshold from 0.05 to 0.50, whose robots are in the table, fit the model of the request and
    -- are named by it, or online if it names none.
    pub create_deployment-Accepts :
        Refuses s (create_deployment w r s) ⊎ Accepts w r s (create_deployment w r s)
    unfolding create_deployment
    create_deployment-Accepts = identified-Decided (w.parse_uuid r.firmware_id)
