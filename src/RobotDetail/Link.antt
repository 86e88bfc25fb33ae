-- ===== src/RobotDetail/Link.antt =====
-- From the dialog of a robot to the launch page: the robot that was shown is the one targeted.
use ota_robot_system.Base.{
  ◌≡◌, ◌≢◌, ◌↔◌, refl, String, true, Option, none, some, List, Mem, truthy, truthy_iff, Bool-cases,
  inl, inr, concat, arith,
}
use ota_robot_system.Types.{Device, FirmwareVersion, is_online}
use ota_robot_system.Types.Telemetry.{DeviceTelemetry}
use ota_robot_system.Types.Reply.{resolved}
use ota_robot_system.DeployForm.{
  Form, initial, fetch_settle, received, choose_device, default_factory, target_devices,
  eligible_devices,
}
use ota_robot_system.Planning.{TargetScope, all, factory, custom, derive_target_devices}
use ota_robot_system.RobotDetail.Interlock.{can_deploy_iff}
use ota_robot_system.DeployForm.Selection.{fetch_settle-preselected}
use ota_robot_system.LaunchFlow.Load.{loaded}
use ota_robot_system.RobotDetail.{can_deploy}
use ota_robot_system.RobotDetail.View.{launch, footer}

is_online-can_deploy :
    (d : Device) (t : Option DeviceTelemetry) → can_deploy d t ≡ true → is_online d ≡ true
is_online-can_deploy d t h = let o = ((can_deploy_iff d t).0 h).0 in ground (arith, o)

-- The address behind the button. `encode` is `encodeURIComponent`.
unfoldable pub deploy_href : (String → String) → Device → String
deploy_href encode d = concat "/deploy?device=" (encode d.id)

any_factory :
    (ds : List Device) (scope : TargetScope) (f g : String) (ids : List String)
    → scope ≡ custom
    → derive_target_devices ds scope f ids ≡ derive_target_devices ds scope g ids
unfolding derive_target_devices
any_factory ds custom f g ids h = refl
any_factory ds all f g ids h = cc
any_factory ds factory f g ids h = cc

-- The choice of a factory leaves the targets of a manual selection as they are.
default_factory-target_devices :
    (s : Form) → s.target_scope ≡ custom → target_devices (default_factory s) ≡ target_devices s
unfolding default_factory
default_factory-target_devices s h = elim (Bool-cases (truthy s.selected_factory)) [
  | inl e ↦ rw e refl
  | inr e ↦ rw e (any_factory (eligible_devices s) s.target_scope _ _ s.selected_device_ids h)
]

custom_scope :
    (w : String) (fws : List FirmwareVersion) (devs : List Device)
    → truthy w ≡ true
    → (fetch_settle none (some w) (resolved (some fws, some devs)) initial).target_scope ≡ custom
unfolding fetch_settle received choose_device
custom_scope w fws devs h = rw h refl

-- Where a robot's dialog offers the launch, its button leads to a launch page that targets this
-- robot, and no robot of another id, provided that the loaded fleet has the robot as it was shown,
-- that its id is not empty, and that the reading of the address undoes the encoding of the id.
pub target_devices-deploy_href :
    (encode : String → String) (search_device : String → Option String) (d : Device)
    (t : Option DeviceTelemetry) (fws : List FirmwareVersion) (devs : List Device)
    → search_device (deploy_href encode d) ≡ some d.id
    → d.id ≢ ""
    → Mem d devs
    → can_deploy d t ≡ true
    → (footer d t ≡ launch)
      × ((c : Device)
          → Mem c (
              target_devices (
                loaded none
                  (search_device (deploy_href encode d))
                  (resolved (some fws, some devs))))
            ↔ (Mem c devs × (is_online c ≡ true) × (c.id ≡ d.id)))
      × Mem d (
          target_devices
            (loaded none (search_device (deploy_href encode d)) (resolved (some fws, some devs))))
unfolding footer
target_devices-deploy_href encode search_device d t fws devs q w m h =
    let page : Form = fetch_settle none (some d.id) (resolved (some fws, some devs)) initial in
    let same =
      default_factory-target_devices page (custom_scope d.id fws devs ((truthy_iff d.id).1 w)) in
    let both = fetch_settle-preselected none d.id fws devs initial w in
    let on = is_online-can_deploy d t h in
    (rw h refl, λ c. rw (q, same) (both c), rw (q, same) ((both d).1 (m, on, refl)))
