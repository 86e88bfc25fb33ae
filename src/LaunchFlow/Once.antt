-- ===== src/LaunchFlow/Once.antt =====
-- One visit of the launch page starts one rollout at most, and none without consent.
use ota_robot_system.Base.{
  ◌≡◌, refl, ◌∙◌, ◌+◌, ◌≤◌, ◌<◌, String, true, false, List, [], ◌∷◌, nat_eq, Bool-cases, inl, inr,
  arith,
}
use ota_robot_system.Types.Reply.{Reply, resolved, rejected}
use ota_robot_system.DeployForm.{Form, default_factory, toggle_device_selection, select_all_custom}
use ota_robot_system.DeployForm.Launch.{handle_open_risk_modal, confirm_launch, launch_settle}
use ota_robot_system.LaunchFlow.{
  Flow, begin, Edit, chooses_firmware, edit, Event, edits, broadcasts, checks, confirms, cancels,
  replies, opens, confirm, cancel, answer, step, steps,
}

-- The form is launching exactly while a call is on its way or a rollout was accepted.
record IsOnce (s : Flow) : Type 0 where
  busy : s.form.is_launching ≡ true → s.pending + s.accepted ≡ 1
  idle : s.form.is_launching ≡ false → s.pending + s.accepted ≡ 0

edit-is_launching :
    (e : Edit) (s : Form) → (default_factory (edit e s)).is_launching ≡ s.is_launching
unfolding default_factory edit toggle_device_selection select_all_custom
edit-is_launching (chooses_firmware id) s = ground arith
edit-is_launching _ s = ground arith

handle_open_risk_modal-is_launching :
    (s : Form) → (handle_open_risk_modal s).state.is_launching ≡ s.is_launching
unfolding handle_open_risk_modal
handle_open_risk_modal-is_launching s = ground arith

confirm-IsOnce : (s : Flow) → IsOnce s → IsOnce (confirm s)
unfolding confirm confirm_launch
confirm-IsOnce s h = ground arith

answer-IsOnce : (r : Reply String) (s : Flow) → IsOnce s → IsOnce (answer r s)
unfolding answer launch_settle
answer-IsOnce (resolved id) s h = ground arith
answer-IsOnce (rejected e) s h = ground arith

step-IsOnce : (s : Flow) (e : Event) → IsOnce s → IsOnce (step s e)
unfolding step opens cancel
step-IsOnce s (edits e) h = ground (arith, edit-is_launching e s.form)
step-IsOnce s broadcasts h = ground (arith, handle_open_risk_modal-is_launching s.form)
step-IsOnce s (checks b) h = ground arith
step-IsOnce s confirms h = confirm-IsOnce s h
step-IsOnce s cancels h = ground arith
step-IsOnce s (replies r) h = answer-IsOnce r s h

steps-IsOnce : (es : List Event) (s : Flow) → IsOnce s → IsOnce (steps s es)
unfolding steps
steps-IsOnce [] s h = h
steps-IsOnce (e ∷ es) s h = steps-IsOnce es (step s e) (step-IsOnce s e h)

-- A step sends nothing, and takes back no acceptance, once a rollout was accepted.
step-accepted :
    (s : Flow) (e : Event)
    → IsOnce s
    → 0 < s.accepted
    → ((step s e).sent ≡ s.sent) × (0 < (step s e).accepted)
unfolding step opens confirm cancel answer confirm_launch launch_settle
step-accepted s (edits e) h k = ground arith
step-accepted s broadcasts h k = ground arith
step-accepted s (checks b) h k = ground arith
step-accepted s confirms h k = ground arith
step-accepted s cancels h k = ground arith
step-accepted s (replies (resolved id)) h k = ground arith
step-accepted s (replies (rejected e)) h k = ground arith

steps-accepted :
    (es : List Event) (s : Flow) → IsOnce s → 0 < s.accepted → (steps s es).sent ≡ s.sent
unfolding steps
steps-accepted [] s h k = refl
steps-accepted (e ∷ es) s h k =
    let (same, still) = step-accepted s e h k in
    steps-accepted es (step s e) (step-IsOnce s e h) still ∙ same

-- From a form that is not launching, whatever is clicked and answered: the calls that wait for an
-- answer and the rollouts that were accepted are one together at most. Once a rollout is accepted
-- the page sends no request any more, whatever comes then.
pub steps-begin-once :
    (f : Form) (es later : List Event)
    → f.is_launching ≡ false
    → ((steps (begin f) es).pending + (steps (begin f) es).accepted ≤ 1)
      × (0 < (steps (begin f) es).accepted
          → (steps (steps (begin f) es) later).sent ≡ (steps (begin f) es).sent)
steps-begin-once f es later l =
    let h : IsOnce (steps (begin f) es) =
      steps-IsOnce es (begin f) (record { busy = ground arith; idle = ground arith }) in
    (
      elim (Bool-cases (steps (begin f) es).form.is_launching) [
        | inl b ↦ omega (arith, h.busy b)
        | inr b ↦ omega (arith, h.idle b)
      ],
      steps-accepted later (steps (begin f) es) h,
    )
