-- ===== src/LaunchFlow/Consent.antt =====
-- No request is sent unless the box of the risk assessment is ticked, anew for each time it opens.
use ota_robot_system.Base.{
  ◌≡◌, refl, ◌∙◌, String, Bool, true, false, List, [], ◌∷◌, any, nat_eq, arith,
}
use ota_robot_system.Types.Reply.{Reply, resolved, rejected}
use ota_robot_system.DeployForm.{Form, default_factory, toggle_device_selection, select_all_custom}
use ota_robot_system.DeployForm.Launch.{handle_open_risk_modal, launch_settle}
use ota_robot_system.LaunchFlow.{
  Flow, Edit, chooses_firmware, edit, Event, edits, broadcasts, checks, confirms, cancels, replies,
  opens, confirm, cancel, answer, step, steps,
}

-- The tick of the box.
abbrev pub is_consent : Event → Bool
is_consent (checks b) = b
is_consent _ = false

IsUnread : Flow → Type 0
IsUnread s = s.form.is_risk_modal_open ≡ true → s.acknowledged ≡ false

edit-is_risk_modal_open :
    (e : Edit) (s : Form) → (default_factory (edit e s)).is_risk_modal_open ≡ s.is_risk_modal_open
unfolding default_factory edit toggle_device_selection select_all_custom
edit-is_risk_modal_open (chooses_firmware id) s = ground arith
edit-is_risk_modal_open _ s = ground arith

opens-IsUnread : (s : Flow) → IsUnread s → IsUnread (opens s)
unfolding IsUnread opens handle_open_risk_modal
opens-IsUnread s h = ground arith

confirm-IsUnread : (s : Flow) → IsUnread s → confirm s ≡ s
unfolding IsUnread confirm
confirm-IsUnread s h = ground arith

answer-IsUnread : (r : Reply String) (s : Flow) → IsUnread s → IsUnread (answer r s)
unfolding IsUnread answer launch_settle
answer-IsUnread (resolved id) s h = ground arith
answer-IsUnread (rejected e) s h = ground arith

step-IsUnread :
    (s : Flow) (e : Event)
    → is_consent e ≡ false
    → IsUnread s
    → IsUnread (step s e) × ((step s e).sent ≡ s.sent)
unfolding step
step-IsUnread s (edits e) n h = unfold IsUnread in ground (arith, edit-is_risk_modal_open e s.form)
step-IsUnread s broadcasts n h = (opens-IsUnread s h, unfold opens in ground arith)
step-IsUnread s (checks b) n h = unfold IsUnread in ground arith
step-IsUnread s confirms n h = rw (confirm-IsUnread s h) (h, refl)
step-IsUnread s cancels n h = unfold IsUnread cancel in ground arith
step-IsUnread s (replies r) n h = (answer-IsUnread r s h, unfold answer in ground arith)

steps-IsUnread :
    (es : List Event) (s : Flow)
    → any is_consent es ≡ false
    → IsUnread s
    → (steps s es).sent ≡ s.sent
unfolding steps
steps-IsUnread [] s n h = refl
steps-IsUnread (e ∷ es) s n h =
    let (kept, same) = step-IsUnread s e (ground (arith, n)) h in
    steps-IsUnread es (step s e) (ground (arith, n)) kept ∙ same

-- From any state of the page in which the risk assessment is closed, a tick given earlier
-- included: no request is sent by clicks and answers among which there is no tick of the box.
pub steps-consent :
    (s : Flow) (es : List Event)
    → s.form.is_risk_modal_open ≡ false
    → any is_consent es ≡ false
    → (steps s es).sent ≡ s.sent
unfolding IsUnread
steps-consent s es shut n = steps-IsUnread es s n (ground arith)
