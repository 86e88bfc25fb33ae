-- ===== src/ControlPlane.antt =====
-- The control plane's part of a rollout: the lifecycle of deployments
-- (backend/internal/rollout/manager.go) over the tables that it reads and writes
-- (backend/internal/db). Rows keep the names of the dashboard's records, which are their JSON.
pub mod Store
pub mod Manager
pub mod Canary
pub mod Launch
pub mod Messages
pub mod Accounts
pub mod Examples
