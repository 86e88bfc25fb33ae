-- ===== src/Agent/Told.antt =====
-- What the agent reports of an update: how far it is, and at last a success or an error.
use mathlib.Core.List.{append_assoc}
use ota_robot_system.Base.{
  ◌≡◌, refl, sym, ◌∙◌, ap, String, Bool, true, false, not, ◌&&◌, Option, none, some, List, [], ◌∷◌,
  ◌++◌, All, ltb, ◌==◌, nat_eq, string_eq, truthy, arith, if◌then◌else◌,
}
use ota_robot_system.Agent.StateMachine.{State, cmd_update, download_ok, verify_ok, trigger}
use ota_robot_system.Agent.{
  Robot, Update, Download, no_answer, no_body, bad_status, content, Surroundings, Report, progress,
  error, fire, Outcome, refuse, also, finish, install, verify, read, download, is_incompatible,
  check, started, handle_update,
}
use ota_robot_system.Agent.Image.{succeeded, is_success}

-- A report that is not the last one.
abbrev pub is_underway : Report → Bool
is_underway (progress n status) = not (status == "success") && not (status == "failed")
is_underway (error message) = false

pub data IsLast : Report → Type 0 where
  success : IsLast (progress 100 "success")
  failure : (message : String) → IsLast (error message)

pub record Told (o : Outcome) : Type 0 where
  pub before : List Report
  pub last : Report
  pub told : o.1 ≡ before ++ last ∷ []
  pub underway : All (λ r. is_underway r ≡ true) before
  pub is_last : IsLast last

All-append :
    (rs qs : List Report)
    → All (λ r. is_underway r ≡ true) rs
    → All (λ r. is_underway r ≡ true) qs
    → All (λ r. is_underway r ≡ true) (rs ++ qs)
All-append [] qs h k = k
All-append (r ∷ rs) qs h k = (h.0, All-append rs qs h.1 k)

also-Told :
    (rs : List Report) (o : Outcome)
    → All (λ r. is_underway r ≡ true) rs
    → Told o
    → Told (also rs o)
also-Told rs (r, qs) h k = record {
  before = rs ++ k.before;
  last = k.last;
  told = ap (rs ++◌) k.told ∙ sym (append_assoc rs k.before (k.last ∷ []));
  underway = All-append rs k.before h k.underway;
  is_last = k.is_last;
}

error-Told : (r : Robot) (message : String) → Told (r, error message ∷ [])
error-Told r message = record {
  before = [];
  last = error message;
  told = refl;
  underway = tt;
  is_last = failure message;
}

either : (b : Bool) (o p : Outcome) → Told o → Told p → Told (if b then o else p)
either true o p h k = h
either false o p h k = k

-- The reports of a verified image.
abbrev starting : List Report
starting =
    progress 20 "verified"
    ∷ progress 25 "installing"
    ∷ progress 50 "installing"
    ∷ progress 75 "installing"
    ∷ []

module _ {ℓ} {C : Type ℓ} (w : Surroundings C) (cmd : Update) where
  install-Told : (r : Robot) → Told (install w cmd r)
  unfolding install finish
  install-Told r =
      also-Told starting _ (refl, (refl, (refl, (refl, tt))))
        (either (w.is_faulty cmd.version) _ _ (error-Told _ "hardware flashing fault") (record {
          before = progress 90 "installing" ∷ [];
          last = progress 100 "success";
          told = refl;
          underway = (refl, tt);
          is_last = success;
        }))

  verify-Told : (c : C) (r : Robot) → Told (verify w cmd c r)
  unfolding verify refuse
  verify-Told c r =
      either (not (w.sha256_hex c == cmd.sha256_checksum)) _ _ (error-Told _ "checksum mismatch") (
        either (not (truthy cmd.signature)) _ _ (error-Told _ "missing firmware signature") (
          either (not (w.verify_signature (w.sha256_hex c) cmd.signature)) _ _
            (error-Told _ "ecdsa signature verification failed") (install-Told (fire verify_ok r))))

  read-Told : (d : Download C) (r : Robot) → Told (read w cmd d r)
  unfolding read refuse
  read-Told no_answer r = error-Told _ "download failed"
  read-Told (bad_status n) r = error-Told _ "download failed: HTTP"
  read-Told no_body r = error-Told _ "read failed"
  read-Told (content c) r = verify-Told c (fire download_ok r)

  check-Told : (r : Robot) → Told (check w cmd r)
  unfolding check refuse download
  check-Told r =
      either (not (w.configured_activity == "idle")) _ _
        (error-Told _ "safety interlock engaged: robot is busy")
        (either (w.is_agv && ltb w.current_battery 50) _ _
          (error-Told _ "safety interlock engaged: AGV battery level is below safe threshold 50%")
          (either (is_incompatible w cmd) _ _ (error-Told _ "incompatible hardware model") (
            either (not w.has_key) _ _
              (error-Told _
                "cryptographic verification failed: root of trust public key unavailable")
              (also-Told (progress 0 "downloading" ∷ []) _ (refl, tt)
                (read-Told (w.fetch cmd.download_url) (record r { status = "updating" }))))))

  started-Told : (o : Option State) (r : Robot) → Told (started w cmd o r)
  unfolding started
  started-Told none r = error-Told _ "invalid agent state for update"
  started-Told (some st) r = check-Told (record r { fsm = st })

  -- However an update goes, the agent reports how far it is, and then once a success or an error.
  pub handle_update-Told : (r : Robot) → Told (handle_update w cmd r)
  unfolding handle_update
  handle_update-Told r = started-Told (trigger r.fsm cmd_update) r

underway-is_success : (r : Report) → is_underway r ≡ true → is_success r ≡ false
underway-is_success (progress n st) h = ground (arith, h)
underway-is_success (error m) h = cc

succeeded-before :
    (rs : List Report) (r : Report)
    → All (λ r. is_underway r ≡ true) rs
    → succeeded (rs ++ r ∷ []) ≡ is_success r
succeeded-before [] r h = ground arith
succeeded-before (q ∷ rs) r h = rw (underway-is_success q h.0) (succeeded-before rs r h.1)

-- A success is reported if and only if it is the last report.
pub succeeded-Told : (o : Outcome) (h : Told o) → succeeded o.1 ≡ is_success h.last
succeeded-Told o h = ap succeeded h.told ∙ succeeded-before h.before h.last h.underway
