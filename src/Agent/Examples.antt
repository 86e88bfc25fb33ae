-- ===== src/Agent/Examples.antt =====
-- A vehicle that is updated, and the theorems about its agent at concrete inputs.
use ota_robot_system.Base.{ℕ, ◌≡◌, refl, String, true, ◌&&◌, [], ◌∷◌, ◌==◌, string_eq}
use ota_robot_system.Agent.StateMachine.{online}
use ota_robot_system.Agent.{
  Robot, Update, content, Surroundings, progress, error, handle_update, handle_rollback,
}
use ota_robot_system.Agent.Image.{Accepted, Decides}
use ota_robot_system.Agent.Safety.{handle_update-Decides}

-- An image is its hash, and a signature is that of one hash.
abbrev pub vehicle : ℕ → Surroundings String
vehicle battery = record {
  configured_activity = "idle";
  is_agv = true;
  current_battery = battery;
  hw_model = "agv-v1";
  has_key = true;
  fetch = λ url. content "ab";
  sha256_hex = λ c. c;
  verify_signature = λ h s. h == "ab" && s == "signed";
  is_faulty = λ v. v == "6.6.6";
}

abbrev pub parked : Robot
parked = record { fsm = online; current_version = "1.0.0"; status = "online" }

abbrev pub release : Update
release = record {
  version = "1.1.0";
  hw_model = "all";
  download_url = "https://store/fw-1";
  sha256_checksum = "ab";
  signature = "signed";
}

handle_update-release :
    (handle_update (vehicle 80) release parked).0 ≡ record parked { current_version = "1.1.0" }
unfolding handle_update
handle_update-release = refl

handle_update-low :
    handle_update (vehicle 30) release parked
    ≡ (parked, error "safety interlock engaged: AGV battery level is below safe threshold 50%" ∷ [])
unfolding handle_update
handle_update-low = refl

-- A rollback is reported like an update, as a success.
handle_rollback-parked : handle_rollback "0.9.0" parked ≡ (
  record parked { current_version = "0.9.0" },
  progress 50 "rolling_back" ∷ progress 100 "success" ∷ [],
)
unfolding handle_rollback
handle_rollback-parked = refl

handle_update-Decides_example :
    Decides
      (vehicle 80)
      release
      (Accepted (vehicle 80) release)
      "1.0.0"
      (handle_update (vehicle 80) release parked)
handle_update-Decides_example = handle_update-Decides (vehicle 80) release parked refl
