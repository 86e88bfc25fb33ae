-- ===== src/Types.antt =====
-- The records that the dashboard exchanges with the control plane (frontend/src/lib/types.ts).
-- Dates stay texts, and numbers are whole.
pub mod Telemetry
pub mod Parse
pub mod Examples
pub mod RoundTrip
pub mod Reply
pub mod Units
use Telemetry.{DeviceTelemetry}
use ota_robot_system.Base.{ℕ, Bool, true, false, String, Option, List}

pub data DeviceStatus : Type 0 where
  online offline updating error : DeviceStatus

-- A status as the text that the code compares it with.
abbrev pub status_text : DeviceStatus → String
status_text online = "online"
status_text offline = "offline"
status_text updating = "updating"
status_text error = "error"

-- `metadata?: DeviceTelemetry | string | null`.
pub data Metadata : Type 0 where
  missing : Metadata
  object : DeviceTelemetry → Metadata
  text : String → Metadata

pub record Device : Type 0 where
  pub id : String
  pub name : String
  pub factory_id : String
  pub hw_model : String
  pub current_version : String
  pub status : DeviceStatus
  pub last_seen : Option String
  pub ip_address : Option String
  pub metadata : Metadata
  pub created_at : String
  pub updated_at : String

-- `d.status === "online"`.
abbrev pub is_online : Device → Bool
is_online d = elim d.status [ online ↦ true | offline ↦ false | updating ↦ false | error ↦ false ]

pub record FirmwareVersion : Type 0 where
  pub id : String
  pub version : String
  pub storage_key : String
  pub file_size : ℕ
  pub sha256_checksum : String
  pub ecdsa_signature : Option String
  pub release_notes : Option String
  pub is_active : Bool
  pub uploaded_by : Option String
  pub created_at : String

pub data Strategy : Type 0 where
  full canary : Strategy

pub data DeploymentStatus : Type 0 where
  pending running completed failed rolled_back : DeploymentStatus

-- `rollback_threshold / 100.0`: a fraction, kept exact.
pub record Fraction : Type 0 where
  pub num : ℕ
  pub den : ℕ

pub record Deployment : Type 0 where
  pub id : String
  pub firmware_version_id : String
  pub firmware_version : Option String
  pub strategy : Strategy
  pub status : DeploymentStatus
  pub canary_percentage : ℕ
  pub current_phase : ℕ
  pub total_devices : ℕ
  pub success_count : ℕ
  pub failure_count : ℕ
  pub rollback_threshold : Fraction
  pub created_by : String
  pub created_at : String
  pub started_at : Option String
  pub completed_at : Option String

pub record CreateDeploymentPayload : Type 0 where
  pub firmware_id : String
  pub strategy : Strategy
  pub hw_model : String
  pub device_ids : List String
  pub rollback_threshold : Fraction

pub data Role : Type 0 where
  admin operator viewer : Role

pub record User : Type 0 where
  pub id : String
  pub username : String
  pub email : Option String
  pub role : Role
