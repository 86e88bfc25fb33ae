-- ===== src/Catalog/Upload.antt =====
-- How the upload of a release ends.
use ota_robot_system.Base.{
  ◌≡◌, ◌≢◌, refl, String, true, false, Option, none, some, trim, truthy, truthy_iff, trim-trim,
  Bool-cases, inl, inr, ap, sym,
}
use mathlib.Core.Option.{none-ne-some, some-injective}
use ota_robot_system.Types.Telemetry.{Thrown, get_error_message}
use ota_robot_system.Types.Reply.{resolved, rejected}
use ota_robot_system.Catalog.{
  Catalog, File, start_upload, upload_start, upload_settle, upload_message, uploaded,
}

-- With a file and a version that is not blank the form is sent, trimmed, and blocked; a good answer
-- then empties it and says which version it was, a refusal keeps all of it and shows the reason. In
-- both cases it is free again.
pub upload_settle-upload_start :
    (s : Catalog) (f : File) (e : Thrown)
    → s.file ≡ some f
    → trim s.version ≢ ""
    → let go = (upload_start s).1.state in
      let good = (upload_settle s.version (resolved tt) go).state in
      let bad = (upload_settle s.version (rejected e) go).state in
      ((upload_start s).0 ≡ some (f, trim s.version, trim s.release_notes))
      × (go.is_uploading ≡ true)
      × (good ≡ record s {
        file = none;
        version = "";
        release_notes = "";
        is_uploading = false;
        upload_error = none;
        upload_success = some (uploaded s.version);
      })
      × (bad ≡ record s {
        is_uploading = false;
        upload_error =
            some (upload_message (get_error_message e "Failed to upload firmware binary"));
        upload_success = none;
      })
unfolding upload_start upload_settle
upload_settle-upload_start s f e h n =
    rw (h, (truthy_iff (trim s.version)).1 n) (refl, refl, refl, refl)

start_upload-trim :
    (file : Option File) (s : Catalog) (f : File) (v n : String)
    → (start_upload file s).0 ≡ some (f, v, n)
    → (trim v ≡ v) × (trim n ≡ n) × (v ≢ "")
unfolding start_upload
start_upload-trim none s f v n h = absurd (none-ne-some (f, v, n) h)
start_upload-trim (some g) s f v n h = elim (Bool-cases (truthy (trim s.version))) [
  | inl t ↦
      let p = some-injective (g, trim s.version, trim s.release_notes) (f, v, n) (rw t at h) in
      let q : trim s.version ≡ v = ap (λ x. x.1) p in
      let r : trim s.release_notes ≡ n = ap (λ x. x.2) p in
      (
        rw (sym q) (trim-trim s.version),
        rw (sym r) (trim-trim s.release_notes),
        rw (sym q) ((truthy_iff (trim s.version)).0 t),
      )
  | inr t ↦ absurd (none-ne-some (f, v, n) (rw t at h))
]

-- What is sent is trimmed: the version and the notes neither begin nor end with white space, and
-- the version is not empty.
pub upload_start-trim :
    (s : Catalog) (f : File) (v n : String)
    → (upload_start s).0 ≡ some (f, v, n)
    → (trim v ≡ v) × (trim n ≡ n) × (v ≢ "")
unfolding upload_start
upload_start-trim s f v n h = start_upload-trim s.file s f v n h
