-- ===== src/Badge/Rows.antt =====
-- A row of the history of the rollouts (frontend/src/app/deployments/page.tsx). The writing of a
-- date is the browser's, and so is that of capital letters for the strategy, which is a style.
use ota_robot_system.Base.{
  ℕ, String, Option, none, some, List, map, take, codes, truthy, ◌++◌, if◌then◌else◌, concat,
}
use ota_robot_system.Types.{
  Deployment, DeploymentStatus, pending, running, completed, failed, rolled_back, Strategy,
}
use ota_robot_system.Badge.{
  Badge, status_badge, History, Results, results, Table, loading_row, empty_row, rows, table,
}

-- A status of a rollout as the control plane writes it.
abbrev pub rollout_text : DeploymentStatus → String
rollout_text pending = "pending"
rollout_text running = "running"
rollout_text completed = "completed"
rollout_text failed = "failed"
rollout_text rolled_back = "rolled_back"

-- The version as it is shown; without one there is a dash.
firmware_label : Option String → String
firmware_label none = "-"
firmware_label (some v) = if truthy v then concat "v" v else "-"

pub record Row : Type 0 where
  pub id : List ℕ
  pub firmware : String
  pub strategy : Strategy
  pub units : ℕ
  pub outcome : Results
  pub status : Badge
  pub created : String
  pub monitor_href : String

unfoldable pub row : (String → String) → Deployment → Row
unfolding firmware_label
row date d = record {
  id = take 13 (codes d.id) ++ codes "...";
  firmware = firmware_label d.firmware_version;
  strategy = d.strategy;
  units = d.total_devices;
  outcome = results d;
  status = status_badge (rollout_text d.status);
  created = date d.created_at;
  monitor_href = concat "/deployments/" d.id;
}

-- What is shown below the header: a line that stands for the rows, or the rows.
pub data Body : Type 0 where
  loading_line empty_line : Body
  lines : List Row → Body

body_of : (String → String) → Table → Body
body_of date loading_row = loading_line
body_of date empty_row = empty_line
body_of date (rows ds) = lines (map (row date) ds)

unfoldable pub body : (String → String) → History → Body
unfolding body_of
body date s = body_of date (table s)
