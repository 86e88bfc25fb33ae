-- ===== src/Agent.antt =====
-- The agent on a robot, as the simulator runs it (simulator/main.go): its state machine and what it
-- does with a command. One command is handled at a time, and the waits between the steps are left
-- out. The network, the hash and the check of a signature are parameters; texts of errors lack the
-- values that they quote.
pub mod StateMachine
pub mod Image
pub mod Safety
pub mod Told
pub mod Examples
use ota_robot_system.Base.{
  ℕ, String, Bool, true, false, not, ◌&&◌, ◌||◌, Option, none, some, List, [], ◌∷◌, ◌++◌, any, ltb,
  ◌==◌, nat_eq, string_eq, truthy, if◌then◌else◌,
}
use ota_robot_system.Agent.StateMachine.{
  State, Event, cmd_update, download_ok, download_fail, verify_ok, verify_fail, install_ok,
  install_fail, reboot_ok, cmd_rollback, rollback_done, reset, trigger,
}

-- What the agent changes of itself.
pub record Robot : Type 0 where
  pub fsm : State
  pub current_version : String
  pub status : String

-- A command for an update, as it is parsed.
pub record Update : Type 0 where
  pub version : String
  pub hw_model : String
  pub download_url : String
  pub sha256_checksum : String
  pub signature : String

-- `http.Get` with its error, or a status that is not 200, or a body that cannot be read, or the body.
pub data Download {ℓ} (C : Type ℓ) : Type ℓ where
  no_answer no_body : Download C
  bad_status : ℕ → Download C
  content : C → Download C

pub record Surroundings {ℓ} (C : Type ℓ) : Type ℓ where
  pub configured_activity : String
  pub is_agv : Bool
  pub current_battery : ℕ
  pub hw_model : String
  -- a public key is there
  pub has_key : Bool
  pub fetch : String → Download C
  pub sha256_hex : C → String
  pub verify_signature : String → String → Bool
  -- the faults that are simulated while a version is flashed
  pub is_faulty : String → Bool

pub data Report : Type 0 where
  progress : ℕ → String → Report
  error : String → Report

-- A trigger whose error is logged only.
unfoldable pub fire : Event → Robot → Robot
fire e r = elim (trigger r.fsm e) [ none ↦ r | some st ↦ record r { fsm = st } ]

abbrev pub Outcome : Type 0
Outcome = Robot × List Report

-- A refusal: the event that fails, an error, and the way back.
refuse : Event → String → Robot → Outcome
unfolding fire
refuse e message r = (record (fire reset (fire e r)) { status = "online" }, error message ∷ [])

abbrev also : List Report → Outcome → Outcome
also rs (r, qs) = (r, rs ++ qs)

module _ {ℓ} {C : Type ℓ} (w : Surroundings C) (cmd : Update) where
  -- The new version runs.
  finish : Robot → Outcome
  unfolding fire
  finish r = (
    record (fire reboot_ok (fire install_ok r)) {
      current_version = cmd.version;
      status = "online";
    },
    progress 90 "installing" ∷ progress 100 "success" ∷ [],
  )

  pub install : Robot → Outcome
  unfolding finish
  install r =
      also
        (progress 20 "verified"
          ∷ progress 25 "installing"
          ∷ progress 50 "installing"
          ∷ progress 75 "installing"
          ∷ [])
        (if w.is_faulty cmd.version
          then (
            record (fire install_fail r) { status = "error" },
            error "hardware flashing fault" ∷ [],
          )
          else finish r)

  pub verify : C → Robot → Outcome
  unfolding refuse install
  verify c r =
      if not (w.sha256_hex c == cmd.sha256_checksum)
      then refuse verify_fail "checksum mismatch" r
      else if not (truthy cmd.signature)
      then refuse verify_fail "missing firmware signature" r
      else if not (w.verify_signature (w.sha256_hex c) cmd.signature)
      then refuse verify_fail "ecdsa signature verification failed" r
      else install (fire verify_ok r)

  pub read : Download C → Robot → Outcome
  unfolding refuse verify
  read no_answer r = refuse download_fail "download failed" r
  read (bad_status n) r = refuse download_fail "download failed: HTTP" r
  read no_body r = refuse download_fail "read failed" r
  read (content c) r = verify c (fire download_ok r)

  download : Robot → Outcome
  unfolding read
  download r =
      also (progress 0 "downloading" ∷ [])
        (read (w.fetch cmd.download_url) (record r { status = "updating" }))

  -- Another model than that of the command, which is empty or `all` for any.
  pub is_incompatible : Bool
  is_incompatible =
      truthy cmd.hw_model && not (cmd.hw_model == "all") && not (cmd.hw_model == w.hw_model)

  pub check : Robot → Outcome
  unfolding refuse is_incompatible download
  check r =
      if not (w.configured_activity == "idle")
      then refuse verify_fail "safety interlock engaged: robot is busy" r
      else if w.is_agv && ltb w.current_battery 50
      then refuse verify_fail
          "safety interlock engaged: AGV battery level is below safe threshold 50%" r
      else if is_incompatible
      then refuse verify_fail "incompatible hardware model" r
      else if not w.has_key
      then refuse verify_fail
          "cryptographic verification failed: root of trust public key unavailable" r
      else download r

  started : Option State → Robot → Outcome
  unfolding check
  started none r = (r, error "invalid agent state for update" ∷ [])
  started (some st) r = check (record r { fsm = st })

  -- `handleUpdate`.
  unfoldable pub handle_update : Robot → Outcome
  unfolding started
  handle_update r = started (trigger r.fsm cmd_update) r

-- `handleRollback` to a version.
unfoldable pub handle_rollback : String → Robot → Outcome
unfolding fire
handle_rollback version r = (
  record (fire rollback_done (fire cmd_rollback r)) {
    current_version = version;
    status = "online";
  },
  progress 50 "rolling_back" ∷ progress 100 "success" ∷ [],
)
