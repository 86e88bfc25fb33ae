-- ===== src/LaunchFlow/Clicks.antt =====
-- The way to a rollout: three clicks send the request, and a refused request can be sent again.
use ota_robot_system.Base.{
  ◌≡◌, refl, ◌+◌, true, false, none, List, [], ◌∷◌, ◌++◌, ◌∙◌, ap, length, ltb, nat_eq, arith,
}
use ota_robot_system.Types.Reply.{rejected}
use ota_robot_system.Types.Telemetry.{Thrown}
use ota_robot_system.DeployForm.{Form, target_models}
use ota_robot_system.DeployForm.Launch.{
  handle_open_risk_modal, confirm_launch, launch_settle, launch_payload,
}
use ota_robot_system.DeployForm.View.{broadcast_disabled}
use ota_robot_system.LaunchFlow.{
  Flow, is_listed, Event, broadcasts, checks, confirms, replies, opens, confirm, answer, step,
  steps,
}

-- The button, the box and the confirmation.
abbrev pub clicks : List Event
clicks = broadcasts ∷ checks true ∷ confirms ∷ []

-- The form after them.
abbrev launching : Form → Form
launching s = record s { error_text = none; is_risk_modal_open = true; is_launching = true }

-- The state after them.
abbrev pub sent_state : Flow → Flow
sent_state s = record s {
  form = launching s.form;
  acknowledged = true;
  sent = launch_payload s.form ∷ s.sent;
  pending = s.pending + 1;
}

-- What the clicks need of a form: its button can be pressed, its dialog is closed, the chosen
-- firmware is in the catalogue, and the targets are of one model.
abbrev pub IsReady : Form → Type 0
IsReady s =
    (broadcast_disabled s ≡ false)
    × (s.is_risk_modal_open ≡ false)
    × (is_listed s.firmwares s.selected_fw_id ≡ true)
    × (ltb 1 (length (target_models s)) ≡ false)

opened :
    (s : Flow)
    → IsReady s.form
    → opens s ≡ record s {
      form = record s.form { error_text = none; is_risk_modal_open = true };
      acknowledged = false;
    }
unfolding opens handle_open_risk_modal broadcast_disabled
opened s (d, o, l, u) = ground arith

confirmed :
    (s : Flow)
    → IsReady s.form
    → confirm (record s {
      form = record s.form { error_text = none; is_risk_modal_open = true };
      acknowledged = true;
    })
      ≡ sent_state s
unfolding confirm confirm_launch broadcast_disabled launch_payload
confirmed s (d, o, l, u) = ground arith

clicked : (s : Flow) → IsReady s.form → steps s clicks ≡ sent_state s
unfolding steps step
clicked s r = rw (opened s r) (rw (r.2) (confirmed s r))

resent :
    (s : Flow) (t : Thrown)
    → IsReady s.form
    → confirm (answer (rejected t) (sent_state s))
      ≡ record (sent_state s) { sent = launch_payload s.form ∷ launch_payload s.form ∷ s.sent }
unfolding answer launch_settle confirm confirm_launch broadcast_disabled launch_payload
resent s t (d, o, l, u) = ground arith

-- With a chosen firmware of the catalogue, targets of one model and the risk assessment closed,
-- the button, the tick and the confirmation send exactly one request more, the payload of the
-- form. If it is refused, one more confirmation sends the same payload again.
pub steps-clicks :
    (s : Flow) (t : Thrown)
    → IsReady s.form
    → (steps s clicks ≡ sent_state s)
      × ((steps s (clicks ++ replies (rejected t) ∷ confirms ∷ [])).sent
          ≡ launch_payload s.form ∷ launch_payload s.form ∷ s.sent)
unfolding steps step
steps-clicks s t r =
    let again : steps s (clicks ++ replies (rejected t) ∷ confirms ∷ [])
        ≡ confirm (answer (rejected t) (steps s clicks)) =
      refl in
    (
      clicked s r,
      ap (λ (x : Flow). x.sent)
          (again ∙ ap (λ x. confirm (answer (rejected t) x)) (clicked s r) ∙ resent s t r),
    )
