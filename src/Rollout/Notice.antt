-- ===== src/Rollout/Notice.antt =====
-- The notice that a rollout has finished comes once.
use ota_robot_system.Base.{
  ℕ, ◌≡◌, refl, ap, String, Bool, true, false, Option, none, some, List, [], ◌∷◌, length,
  Bool-cases, inl, inr, nat_eq, toast, success, concat, any, suc, only, if◌then◌else◌, ◌∙◌,
}
use ota_robot_system.Types.{Deployment, completed}
use ota_robot_system.Types.Reply.{Reply, resolved, rejected}
use ota_robot_system.Rollout.{
  Monitor, Answer, load_settle, is_finished, notice, notify, initial, completion_effect, loads,
}

-- An answer that shows a rollout which has finished.
abbrev pub shows_finished : Reply Answer → Bool
shows_finished (resolved a) = is_finished a.deployment
shows_finished (rejected e) = false

holds_finished : Option Deployment → Bool
holds_finished none = false
holds_finished (some d) = is_finished d

load_settle-completion_notified :
    (r : Reply Answer) (s : Monitor) → (load_settle r s).completion_notified ≡ s.completion_notified
unfolding load_settle
load_settle-completion_notified (resolved a) s = refl
load_settle-completion_notified (rejected e) s = refl

module _ (decimal : ℕ → String) where
  notify_again :
      (d : Option Deployment) (s : Monitor)
      → s.completion_notified ≡ true
      → notify decimal d s ≡ only s
  unfolding notify
  notify_again none s h = refl
  notify_again (some d) s h = elim (Bool-cases (is_finished d)) [
    | inl e ↦ rw (e, h) refl
    | inr e ↦ rw e refl
  ]

  notify_unfinished :
      (d : Option Deployment) (s : Monitor) → holds_finished d ≡ false → notify decimal d s ≡ only s
  unfolding notify holds_finished
  notify_unfinished none s h = refl
  notify_unfinished (some d) s h = rw h refl

  loads_again :
      (rs : List (Reply Answer)) (s : Monitor)
      → s.completion_notified ≡ true
      → length (loads decimal s rs).1 ≡ 0
  unfolding loads completion_effect
  loads_again [] s h = refl
  loads_again (r ∷ rs) s h =
      let t = load_settle r s in
      let k : t.completion_notified ≡ true = load_settle-completion_notified r s ∙ h in
      rw (notify_again t.deployment t k) (loads_again rs t k)

  loads_first :
      (rs : List (Reply Answer)) (s : Monitor)
      → s.completion_notified ≡ false
      → holds_finished s.deployment ≡ false
      → length (loads decimal s rs).1 ≡ (if any shows_finished rs then 1 else 0)
  unfolding loads completion_effect notify holds_finished load_settle
  loads_first [] s h n = refl
  loads_first (resolved a ∷ rs) s h n = elim (Bool-cases (is_finished a.deployment)) [
    | inl e ↦
        let t = record (load_settle (resolved a) s) {
          completion_notified = true;
          show_completion_modal = true;
        } in
        rw (e, h) (ap suc (loads_again rs t refl))
    | inr e ↦ rw e (loads_first rs (load_settle (resolved a) s) h e)
  ]
  loads_first (rejected x ∷ rs) s h n =
      let t = load_settle (rejected x) s in
      rw (notify_unfinished t.deployment t n) (loads_first rs t h n)

  -- However often the rollout is loaded, a single notification says that it has finished, and it
  -- comes if and only if an answer shows a rollout that has finished.
  pub length-loads :
      (rs : List (Reply Answer))
      → length (loads decimal initial rs).1 ≡ (if any shows_finished rs then 1 else 0)
  unfolding holds_finished
  length-loads rs = loads_first rs initial refl refl

-- A rollout that the control plane calls completed is announced as a full success, whatever
-- number of robots has failed.
pub notice-completed :
    (decimal : ℕ → String) (d : Deployment)
    → d.status ≡ completed
    → notice decimal d
      ≡ toast "Rollout Completed Successfully"
          (concat "All "
            (concat (decimal d.total_devices) " robot units have finished firmware upgrade (100%)"))
          success
          6000
unfolding notice
notice-completed decimal d h = rw h refl
