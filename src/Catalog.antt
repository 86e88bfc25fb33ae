-- ===== src/Catalog.antt =====
-- The firmware catalogue (frontend/src/app/firmware/page.tsx): its state and its handlers. A form or
-- a dialog is read when its handler starts, so what it held then is an argument of what follows
-- the call.
pub mod Upload
pub mod Dialogs
pub mod View
pub mod Desk
pub mod Examples
use Prim.Native.Char.{Char}
use ota_robot_system.Base.{
  ℕ, zero, suc, String, Bool, true, false, not, Option, none, some, List, [], ◌∷◌, codes, contains,
  trim, truthy, get_or, if◌then◌else◌, concat, Out, only, Effect, toast, push, replace, open_window,
  alert, callback, ToastType, success, error, warning, info, default_duration,
}
use ota_robot_system.Types.{FirmwareVersion}
use ota_robot_system.Types.Telemetry.{get_error_message}
use ota_robot_system.Types.Reply.{Reply, resolved, rejected}
use ota_robot_system.DeployForm.{data_or_empty}

-- A file that was chosen: its name and its size.
pub record File : Type 0 where
  pub name : String
  pub size : ℕ

pub record Catalog : Type 0 where
  pub firmwares : List FirmwareVersion
  pub loading : Bool
  pub current_page : ℕ
  pub page_size : ℕ
  pub file : Option File
  pub version : String
  pub release_notes : String
  pub is_uploading : Bool
  pub upload_error : Option String
  pub upload_success : Option String
  pub copied_id : Option String
  pub editing_fw : Option FirmwareVersion
  pub edit_version : String
  pub edit_notes : String
  pub is_updating : Bool
  pub update_error : Option String
  pub deleting_fw : Option FirmwareVersion
  pub is_deleting : Bool
  pub delete_error : Option String
  pub load_error : Option String

abbrev pub initial : Catalog
initial = record {
  firmwares = [];
  loading = true;
  current_page = 1;
  page_size = 10;
  file = none;
  version = "";
  release_notes = "";
  is_uploading = false;
  upload_error = none;
  upload_success = none;
  copied_id = none;
  editing_fw = none;
  edit_version = "";
  edit_notes = "";
  is_updating = false;
  update_error = none;
  deleting_fw = none;
  is_deleting = false;
  delete_error = none;
  load_error = none;
}

-- `loadFirmwares`, when the call has ended.
unfoldable pub load_settle : Reply (Option (List FirmwareVersion)) → Catalog → Catalog
load_settle (resolved answer) s = record s {
  firmwares = data_or_empty answer;
  load_error = none;
  loading = false;
}
load_settle (rejected e) s = record s {
  load_error = some "Firmware catalog could not be refreshed. Existing entries may be stale.";
  loading = false;
}

-- `handleFileDrop` and `handleFileSelect`: the first of the files, if there is one.
unfoldable pub choose_file : List File → Catalog → Catalog
choose_file [] s = s
choose_file (f ∷ fs) s = record s { file = some f }

refuse_upload : String → Catalog → Out Catalog
refuse_upload msg s = record {
  state = record s { upload_error = some msg };
  effects = toast "Upload Error" msg warning default_duration ∷ [];
}

unfoldable pub start_upload : Option File → Catalog → Option (File × String × String) × Out Catalog
unfolding refuse_upload
start_upload none s =
    (none, refuse_upload "Please select a firmware file (.bin, .hex, .tar.gz, .img)" s)
start_upload (some f) s =
    if not (truthy (trim s.version))
    then (none, refuse_upload "Version string is required (e.g. 1.2.0)" s)
    else (
      some (f, trim s.version, trim s.release_notes),
      only (record s { is_uploading = true; upload_error = none; upload_success = none }),
    )

-- `handleUpload` up to the call: the form data to send, or nothing.
unfoldable pub upload_start : Catalog → Option (File × String × String) × Out Catalog
unfolding start_upload
upload_start s = start_upload s.file s

-- The message of a refused upload: that of `fetch` is replaced.
unfoldable pub upload_message : String → String
upload_message msg =
    if contains (codes msg) (codes "Failed to fetch")
    then "Network error (Failed to fetch). Please check connection or ensure backend is awake."
    else msg

abbrev pub uploaded : String → String
uploaded version =
    concat "Firmware v" (concat version " uploaded, verified, and signed with ECDSA NIST P-256!")

-- The rest of `handleUpload`. It does not wait for the catalogue to be loaded again.
unfoldable pub upload_settle : String → Reply (Unit {0}) → Catalog → Out Catalog
upload_settle version (resolved u) s = record {
  state = record s {
    upload_success = some (uploaded version);
    file = none;
    version = "";
    release_notes = "";
    is_uploading = false;
  };
  effects =
      toast "Firmware Uploaded & Signed" (uploaded version) success default_duration
      ∷ callback "loadFirmwares"
      ∷ [];
}
upload_settle version (rejected e) s =
    let msg = upload_message (get_error_message e "Failed to upload firmware binary") in
    record {
      state = record s { upload_error = some msg; is_uploading = false };
      effects = toast "Upload Failed" msg error default_duration ∷ [];
    }

-- `s.slice(0, n)`.
unfoldable pub first_letters : ℕ → String → String
first_letters zero s = String.[]
first_letters (suc n) String.[] = String.[]
first_letters (suc n) (String.◌∷◌ c s) = String.◌∷◌ c (first_letters n s)

-- `handleCopyChecksum`, and the timer it sets: the clipboard is the browser's.
unfoldable pub copy_checksum : String → String → Catalog → Out Catalog
unfolding first_letters
copy_checksum checksum id s = record {
  state = record s { copied_id = some id };
  effects =
      callback "navigator.clipboard.writeText"
      ∷ toast "Checksum Copied"
          (concat "SHA-256 digest ("
            (concat (first_letters 16 checksum) "...) copied to clipboard"))
          info 2500
      ∷ [];
}

unfoldable pub copy_timeout : Catalog → Catalog
copy_timeout s = record s { copied_id = none }

-- `handleDownload`, when the call for the address has ended.
unfoldable pub download_settle : Reply String → List Effect
download_settle (resolved url) = open_window url ∷ []
download_settle (rejected e) = alert "Failed to get download URL" ∷ []
