-- ===== src/Catalog/View.antt =====
-- What the catalogue shows (frontend/src/app/firmware/page.tsx). Sizes in bytes are left out; the
-- writing of a date is the browser's.
use ota_robot_system.Base.{
  ℕ, String, Bool, false, Option, none, some, List, map, length, truthy, get_or, or_else, ◌==◌,
  nat_eq, string_eq, if◌then◌else◌, concat,
}
use ota_robot_system.Types.{FirmwareVersion}
use ota_robot_system.Pagination.{page_rows}
use ota_robot_system.Catalog.{Catalog, File, first_letters}

-- Whether a release is signed, with its signature.
pub data Seal : Type 0 where
  signed : String → Seal
  unsigned : Seal

seal : Option String → Seal
seal none = unsigned
seal (some s) = if truthy s then signed s else unsigned

-- `copiedId === fw.id`.
is_copied : Option String → String → Bool
is_copied none id = false
is_copied (some c) id = c == id

pub record Row : Type 0 where
  pub version : String
  pub ecdsa : Seal
  pub checksum : String
  pub copied : Bool
  pub notes : String
  pub released : String
  pub deploy_href : String

unfoldable pub row : (String → String) → Option String → FirmwareVersion → Row
unfolding seal is_copied first_letters
row date copied_id fw = record {
  version = concat "v" fw.version;
  ecdsa = seal fw.ecdsa_signature;
  checksum = concat (first_letters 16 fw.sha256_checksum) "...";
  copied = is_copied copied_id fw.id;
  notes = or_else (get_or fw.release_notes "") "—";
  released = date fw.created_at;
  deploy_href = concat "/deploy?firmware=" fw.id;
}

pub data Table : Type 0 where
  loading_row empty_row : Table
  rows : List Row → Table

unfoldable pub table : (String → String) → Catalog → Table
unfolding row
table date s =
    if s.loading
    then loading_row
    else if length s.firmwares == 0
    then empty_row
    else rows (map (row date s.copied_id) (page_rows s.current_page s.page_size s.firmwares))

-- The zone of the upload: the name of the file, or the invitation.
unfoldable pub file_label : Option File → String
file_label none = "Drag and drop firmware (.bin, .hex, .tar.gz, .img) here, or browse"
file_label (some f) = f.name

unfoldable pub upload_button : Catalog → String
upload_button s =
    if s.is_uploading then "Computing Checksum & Uploading..." else "Publish Firmware Release"

-- The question before a removal, if it is asked.
unfoldable pub delete_question : Option FirmwareVersion → Option String
delete_question none = none
delete_question (some fw) =
    some (concat "Are you sure you want to delete firmware release v" (concat fw.version "?"))

-- The fields of the two forms, as they are typed in.
unfoldable pub set_version : String → Catalog → Catalog
set_version v s = record s { version = v }

unfoldable pub set_release_notes : String → Catalog → Catalog
set_release_notes n s = record s { release_notes = n }

unfoldable pub set_edit_version : String → Catalog → Catalog
set_edit_version v s = record s { edit_version = v }

unfoldable pub set_edit_notes : String → Catalog → Catalog
set_edit_notes n s = record s { edit_notes = n }

-- The pager of the table.
unfoldable pub change_page : ℕ → Catalog → Catalog
change_page n s = record s { current_page = n }

unfoldable pub change_page_size : ℕ → Catalog → Catalog
change_page_size n s = record s { page_size = n }
