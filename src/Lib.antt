-- ===== src/Lib.antt =====
-- The OTA robot fleet manager: its dashboard, the rollout manager of its control plane, and the
-- agent on a robot.
--
-- The dashboard is a single-page client of the control plane: pages keep their state in hooks, call
-- the API client, and hand rows to shared components. Each file below models the code it names, by
-- the source's own names. A component's state is a record, a handler is a function from the state
-- to the new state and the effects it has (Base/Effects: notifications, navigation, calls of
-- functions that the component was given), and an awaited call splits a handler in two: what is
-- done up to the call, and what is done with its reply (Types/Reply). The event loop runs one
-- handler at a time, so concurrency is a list of events.
--
--   Types, Types/*     frontend/src/lib/types.ts: the records exchanged with the control plane,
--                      parseDeviceTelemetry and getErrorMessage
--   Planning, /*       frontend/src/lib/planning.ts: who is targeted by a rollout, how a plan is
--                      evaluated, the request that is sent
--   Api, Api/*         frontend/src/lib/api.ts: fetchJSON with its refresh and retry, the requests
--                      of the operations, and the shared refresh (SingleFlight)
--   Polling, /*        frontend/src/hooks/useVisibilityPolling.ts: the polling loop with its timers
--   Toasts, /*         frontend/src/context/ToastContext.tsx: notifications and their timers
--   Pagination, /*     frontend/src/components/Pagination.tsx and the slices of the tables
--   RobotDetail, /*    frontend/src/components/RobotDetailModal.tsx: interlock, texts, and the
--                      removal of robots under any clicks and answers (Decommission)
--   DeployForm, /*     frontend/src/app/deploy/page.tsx: the launch form
--   LaunchFlow, /*     the same page as its operator meets it, with DeployRiskModal.tsx in it: form, consent
--                      and calls under any clicks and answers
--   Session, /*        frontend/src/context/AuthContext.tsx, frontend/src/app/login/page.tsx and the
--                      logout of frontend/src/components/Sidebar.tsx; over the client of Api
--                      in Client
--   Fleet, /*          frontend/src/app/page.tsx: the overview with its filters,
--                      also under any clicks and answers (Desk)
--   Catalog, /*        frontend/src/app/firmware/page.tsx: upload, change and removal of releases,
--                      also under any clicks and answers (Desk)
--   Dialog, /*         frontend/src/hooks/useDialogFocus.ts, frontend/src/components/DeployRiskModal.tsx
--                      and RollbackRiskModal.tsx: the keyboard trap, the focus, and consent
--   Badge, /*          frontend/src/components/StatusBadge.tsx, MetricCard.tsx, and the history of the
--                      rollouts in frontend/src/app/deployments/page.tsx
--   SideBar, /*        frontend/src/components/Sidebar.tsx: links and health
--   Rollout, /*        frontend/src/app/deployments/[id]/page.tsx: the monitor of one rollout,
--                      and its rollback under any clicks and answers (Emergency)
--   ControlPlane, /*   backend/internal/rollout: the rollout manager (Manager), the goroutine of a
--                      canary rollout between reports and requests (Canary), and the queries of
--                      backend/internal/db/queries on the tables of its migrations (Store);
--                      CreateDeployment of backend/internal/handlers/deployments.go (Launch) and
--                      the reports in backend/internal/mqtt/client.go (Messages); login, refresh and
--                      logout of backend/internal/handlers/auth.go (Accounts)
--   Agent, /*          simulator/main.go and simulator/internal/agent/state_machine.go: what a robot
--                      does with an update or a rollback
--   Proxy, /*          frontend/next.config.mjs: the way of a request to the control plane
--   LoadTest, /*       scripts/k6/load_test_fleet.js: an iteration of the load test, its counters
--
-- Texts are lists of code points; letter case and white space are those of ASCII. Counts are
-- unbounded, where JavaScript has doubles and Go has int32: none comes near 2^31. Fractions of a
-- count and thresholds are exact. No loop needs fuel: all recursion is on a list or a count.
-- Parameters: the server (fetchJSON answers by the requests before, Api and LoadTest), JSON.parse
-- and atob (Types/Parse, LoadTest), the matching of paths (Proxy), the encoding of addresses
-- (RobotDetail/Link), the clock (Fleet/Options), the writing of numbers and the rounding of a
-- percentage (Rollout, Rollout/Progress), that of dates (Catalog/View, Badge/Rows), where Tab leads
-- between neighbours (Dialog/Focus), and the network, the hash, the check of signatures and the
-- faults of a robot (Agent), and the parser of ids, the addresses of images, and the ids, times and
-- order of the database (ControlPlane/Launch), and hashes, signers and random tokens
-- (ControlPlane/Accounts). A handler that awaits a reload takes it as a function of the state; in
-- the files named Desk and in Emergency the two parts are steps of their own. Components meet like
-- this: the session asks through Api, the launch form plans with Planning and asks for consent in
-- Dialog, its request goes through Api, and Rollout watches what came of it; all of them notify
-- through Toasts and poll with Polling. What the launch form announces as sentinels is the first
-- phase of the canary in ControlPlane, which takes the form's request in Launch; what Agent reports
-- comes back to it through Messages.
--
-- The database of the control plane answers every query, so that only a missing row is an error,
-- and a command that cannot be published is only logged, as in the source. The goroutine of a
-- canary rollout stands between two accesses to the tables or the dispatcher, and each report or
-- request is handled at one go between two of its steps; time is whether a tick of the poll is
-- late. A robot of Agent handles one command at a time.
--
-- Not modelled: markup and styles; sizes in bytes as texts, which use logarithms of doubles; the
-- other HTTP handlers, the store of releases, the check of access tokens and the messages of status
-- of the control plane, and the telemetry and the set-up of a robot, which are Go around the
-- modelled parts; the other scripts and the infrastructure; the agent skills, which are copies of
-- other projects.
pub mod Base
pub mod Types
pub mod Planning
pub mod Api
pub mod Polling
pub mod Pagination
pub mod Toasts
pub mod RobotDetail
pub mod DeployForm
pub mod Session
pub mod Fleet
pub mod Rollout
pub mod Catalog
pub mod Dialog
pub mod Badge
pub mod SideBar
pub mod LaunchFlow
pub mod Proxy
pub mod LoadTest
pub mod ControlPlane
pub mod Agent
