-- ===== src/Agent/StateMachine.antt =====
-- The state machine of the agent (simulator/internal/agent/state_machine.go).
use ota_robot_system.Base.{Option, none, some}

pub data State : Type 0 where
  idle downloading verifying installing rebooting online rolling_back failed : State

pub data Event : Type 0 where
  boot_ok cmd_update download_ok download_fail verify_ok verify_fail : Event
  install_ok install_fail reboot_ok cmd_rollback rollback_done reset : Event

-- `transitions[from][event]`; there is no other transition.
abbrev pub trigger : State → Event → Option State
trigger idle boot_ok = some online
trigger idle cmd_update = some downloading
trigger downloading download_ok = some verifying
trigger downloading download_fail = some failed
trigger downloading verify_fail = some failed
trigger verifying verify_ok = some installing
trigger verifying verify_fail = some failed
trigger installing install_ok = some rebooting
trigger installing install_fail = some failed
trigger rebooting reboot_ok = some online
trigger online cmd_rollback = some rolling_back
trigger online cmd_update = some downloading
trigger rolling_back rollback_done = some online
trigger rolling_back install_fail = some failed
trigger failed cmd_rollback = some rolling_back
trigger failed cmd_update = some downloading
trigger failed reset = some online
trigger s e = none
