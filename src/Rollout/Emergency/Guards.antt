-- ===== src/Rollout/Emergency/Guards.antt =====
-- What a load leaves as it is.
use ota_robot_system.Base.{◌≡◌, refl, Option, none, some, arith, nat_eq}
use ota_robot_system.Types.{Deployment}
use ota_robot_system.Types.Reply.{Reply, resolved, rejected}
use ota_robot_system.Rollout.{Monitor, Answer, load_settle, notify, completion_effect}
use ota_robot_system.Rollout.Emergency.{show}

notify-same :
    (o : Option Deployment) (m : Monitor)
    → ((notify (λ n. "") o m).state.is_rolling_back ≡ m.is_rolling_back)
      × ((notify (λ n. "") o m).state.is_rollback_modal_open ≡ m.is_rollback_modal_open)
      × ((notify (λ n. "") o m).state.deployment ≡ m.deployment)
unfolding notify
notify-same none m = (refl, refl, refl)
notify-same (some d) m = ground arith

-- The dialog and the rollback are not touched by a load.
pub show-same :
    (a : Reply Answer) (m : Monitor)
    → ((show a m).is_rolling_back ≡ m.is_rolling_back)
      × ((show a m).is_rollback_modal_open ≡ m.is_rollback_modal_open)
unfolding show completion_effect load_settle
show-same (resolved a) m =
    let (r, o, d) =
      notify-same (load_settle (resolved a) m).deployment (load_settle (resolved a) m) in
    (r, o)
show-same (rejected e) m =
    let (r, o, d) = notify-same m.deployment (load_settle (rejected e) m) in (r, o)

-- A load shows the rollout of a good answer, and after a refusal the one that was shown.
pub show-deployment :
    (a : Reply Answer) (m : Monitor) → (show a m).deployment ≡ (load_settle a m).deployment
unfolding show completion_effect
show-deployment a m =
    let (r, o, d) = notify-same (load_settle a m).deployment (load_settle a m) in d
