-- ===== src/LaunchFlow/Load.antt =====
-- The page from its first load: what it asks of the control plane in its whole life.
use ota_robot_system.Base.{
  ◌≡◌, refl, String, true, false, ◌&&◌, Option, none, some, List, [], ◌∷◌, truthy, string_eq, All,
  Bool-cases, inl, inr, arith, eq_iff,
}
use ota_robot_system.Types.{Device, FirmwareVersion}
use ota_robot_system.Types.Reply.{Reply, resolved, rejected}
use ota_robot_system.DeployForm.{
  Form, initial, choose_firmware, choose_device, first_id, received, load_error, fetch_settle,
  default_factory, data_or_empty,
}
use ota_robot_system.LaunchFlow.{begin, is_listed, Event, steps}
use ota_robot_system.LaunchFlow.Requests.{IsSafe, steps-begin-IsSafe}

-- The lists as they come from the control plane: the firmwares, and the robots.
abbrev pub Lists : Type 0
Lists = Option (List FirmwareVersion) × Option (List Device)

-- The form when the page has loaded. The address names a firmware and a robot, or not.
abbrev pub loaded : Option String → Option String → Reply Lists → Form
loaded fw device r = default_factory (fetch_settle fw device r initial)

first_id-is_listed :
    (fs : List FirmwareVersion)
    → truthy (first_id fs "") ≡ true
    → is_listed fs (first_id fs "") ≡ true
unfolding first_id
first_id-is_listed [] h = cc
first_id-is_listed (f ∷ fs) h = ground (arith, eq_iff f.id f.id)

choose_firmware-is_listed :
    (fw : Option String) (fs : List FirmwareVersion)
    → truthy (choose_firmware fw fs "") ≡ true
    → is_listed fs (choose_firmware fw fs "") ≡ true
unfolding choose_firmware
choose_firmware-is_listed none fs h = first_id-is_listed fs h
choose_firmware-is_listed (some w) fs h = elim (Bool-cases (truthy w && is_listed fs w)) [
  | inl e ↦ rw e (ground (arith, e))
  | inr e ↦ rw e (first_id-is_listed fs (rw e at h))
]

-- What is needed of a form to begin with.
record IsFresh (s : Form) : Type 0 where
  known : truthy s.selected_fw_id ≡ true → is_listed s.firmwares s.selected_fw_id ≡ true
  shut : s.is_risk_modal_open ≡ false

choose_device-IsFresh : (d : Option String) (s : Form) → IsFresh s → IsFresh (choose_device d s)
unfolding choose_device
choose_device-IsFresh none s h = h
choose_device-IsFresh (some w) s h = ground arith

loading-IsFresh : (s : Form) → IsFresh s → IsFresh (record s { loading = false })
loading-IsFresh s h = record { known = h.known; shut = h.shut }

fetch_settle-IsFresh :
    (fw device : Option String) (r : Reply Lists) → IsFresh (fetch_settle fw device r initial)
unfolding fetch_settle received load_error
fetch_settle-IsFresh fw d (resolved (none, devs)) = ground (arith)
fetch_settle-IsFresh fw d (resolved (some fs, devs)) =
    let s : Form = record initial {
      firmwares = fs;
      devices = data_or_empty devs;
      selected_fw_id = choose_firmware fw fs "";
    } in
    loading-IsFresh (choose_device d s)
      (choose_device-IsFresh d s (record { known = choose_firmware-is_listed fw fs; shut = refl }))
fetch_settle-IsFresh fw d (rejected e) = ground arith

loaded-IsFresh : (fw device : Option String) (r : Reply Lists) → IsFresh (loaded fw device r)
unfolding default_factory
loaded-IsFresh fw d r = ground (arith, fetch_settle-IsFresh fw d r)

-- Whatever address and lists the page is loaded with, and whatever is clicked and answered then,
-- each request for a rollout names a firmware of the catalogue and at least one robot, and all
-- robots that it names are online robots of the loaded fleet of the model that it names.
pub steps-loaded-IsSafe :
    (fw device : Option String) (r : Reply Lists) (es : List Event)
    → All
        (IsSafe (loaded fw device r).devices (loaded fw device r).firmwares)
        (steps (begin (loaded fw device r)) es).sent
steps-loaded-IsSafe fw d r es =
    let f = loaded fw d r in let h = loaded-IsFresh fw d r in steps-begin-IsSafe f es h.known h.shut
