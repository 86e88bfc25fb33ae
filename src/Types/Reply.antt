-- ===== src/Types/Reply.antt =====
-- How an awaited call of the client ends: with a value, or with what it throws.
use ota_robot_system.Types.Telemetry.{Thrown}

pub data Reply {ℓ} (A : Type ℓ) : Type ℓ where
  resolved : A → Reply A
  rejected : Thrown → Reply A
