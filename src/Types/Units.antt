-- ===== src/Types/Units.antt =====
-- One robot's part in a rollout, of frontend/src/lib/types.ts.
use ota_robot_system.Base.{ℕ, String, Option}

pub data UnitStatus : Type 0 where
  pending downloading installing success failed rolled_back : UnitStatus

pub record DeploymentDevice : Type 0 where
  pub id : String
  pub deployment_id : String
  pub device_id : String
  pub status : UnitStatus
  pub progress : ℕ
  pub error_message : Option String
  pub previous_version : Option String
  pub device_name : Option String
  pub factory_id : Option String
  pub hw_model : Option String
  pub created_at : String
