-- ===== src/ControlPlane/Launch/Back.antt =====
-- From a request for a rollout to the rollback of it.
use ota_robot_system.Base.{◌≡◌, String, Option, some, List, [], ◌∷◌, length, string_eq}
use ota_robot_system.Types.{Device, FirmwareVersion, canary, Fraction, Deployment, running}
use ota_robot_system.ControlPlane.Store.{Store, Command, rollback}
use ota_robot_system.ControlPlane.Manager.{previous_version}
use ota_robot_system.ControlPlane.Manager.Back.{GoesBack}
use ota_robot_system.ControlPlane.Canary.{Event, run_canary, steps}
use ota_robot_system.ControlPlane.Launch.{Services, enlist}

-- Each robot is sent back to the version that it ran, in their order.
pub data SentHome (reason : String) : List Device → List (String × Command) → Type 0 where
  none_left : SentHome reason [] []
  next :
      (d : Device) (v : String) (ds : List Device) (cs : List (String × Command))
      → GoesBack (some d.current_version) v
      → SentHome reason ds cs
      → SentHome reason (d ∷ ds) ((d.id, rollback v reason) ∷ cs)

abbrev part_command : String → String × String × Option String → String × Command
part_command reason p = (p.1, rollback (previous_version p.2) reason)

-- A new row of a rollout: it runs, of the firmware and with the threshold, with a target for each
-- robot, of which none is counted, in no phase yet, and with the percentage of the first one.
abbrev pub IsNew : FirmwareVersion → Fraction → List Device → Deployment → Type 0
IsNew fw threshold ds r =
    (r.status ≡ running)
    × (r.strategy ≡ canary)
    × (r.firmware_version_id ≡ fw.id)
    × (r.rollback_threshold ≡ threshold)
    × (r.total_devices ≡ length ds)
    × (r.success_count ≡ 0)
    × (r.failure_count ≡ 0)
    × (r.current_phase ≡ 0)
    × (r.canary_percentage ≡ 20)

module _ (w : Services) (fw : FirmwareVersion) (threshold : Fraction) (ds : List Device)
    (cmd : Command) (s : Store) where
  -- The tables of a new canary rollout, and after some events.
  abbrev pub begun : Store
  begun = enlist w fw canary threshold ds s

  abbrev pub later : List Event → Store
  later es = (steps (run_canary (w.new_id s) ds cmd begun) es).store
