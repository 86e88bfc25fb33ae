-- ===== src/ControlPlane/Canary/Phases.antt =====
-- The three phases of a canary rollout share the robots out.
use mathlib.Core.List.{append-nil}
use ota_robot_system.Base.{
  ℕ, ◌+◌, ◌-◌, ◌≤◌, ◌<◌, ◌≡◌, refl, sym, ◌∙◌, ap, true, List, [], ◌∷◌, ◌++◌, take, drop, length,
  take-append-drop, drop-drop, arith, nat_eq,
}
use ota_robot_system.Types.{Device, canary}
use ota_robot_system.Planning.{sentinels}
use ota_robot_system.ControlPlane.Canary.{
  clamp_phase_end, p1_end, p2_end, Phase, phases, is_last_phase,
}

-- The robots of some phases.
abbrev pub rest : List Phase → List Device
rest [] = []
rest (p ∷ ps) = p.devices ++ rest ps

pub p1_end-le-p2_end : (n : ℕ) → p1_end n ≤ p2_end n
unfolding p1_end p2_end clamp_phase_end
p1_end-le-p2_end n = ground arith

pub p2_end-le : (n : ℕ) → p2_end n ≤ n
unfolding p1_end p2_end clamp_phase_end
p2_end-le n = ground arith

-- The first phase is the wave that the launch page announces.
pub p1_end-sentinels : (n : ℕ) → 0 < n → p1_end n ≡ sentinels canary n
unfolding p1_end clamp_phase_end sentinels
p1_end-sentinels n h = ground arith

drop_all : (ds : List Device) → drop (length ds) ds ≡ []
drop_all [] = refl
drop_all (d ∷ ds) = drop_all ds

pub rest-phases : (ds : List Device) → rest (phases ds) ≡ ds
rest-phases ds =
    let n = length ds in
    let m = p2_end n - p1_end n in
    let e : p1_end n + m ≡ p2_end n = omega (arith, p1_end-le-p2_end n) in
    let split : drop m (drop (p1_end n) ds) ≡ drop (p2_end n) ds =
      drop-drop m (p1_end n) ds ∙ ap (λ k. drop k ds) e in
    ap (λ xs. take (p1_end n) ds ++ (take m (drop (p1_end n) ds) ++ xs))
      (append-nil (drop (p2_end n) ds))
    ∙ ap (λ xs. take (p1_end n) ds ++ (take m (drop (p1_end n) ds) ++ xs)) (sym split)
    ∙ ap (take (p1_end n) ds ++◌) (take-append-drop m (drop (p1_end n) ds))
    ∙ take-append-drop (p1_end n) ds

-- Behind the last phase nothing is left.
abbrev pub Lasts : ℕ → List Phase → Type 0
Lasts n [] = Unit {0}
Lasts n (p ∷ ps) = (is_last_phase n p.phase_num ≡ true → rest ps ≡ []) × Lasts n ps

pub Lasts-phases : (ds : List Device) → Lasts (length ds) (phases ds)
unfolding is_last_phase
Lasts-phases ds = (
  λ e. absurd (ground (arith, e)),
  (λ e. ap (λ k. drop k ds ++ []) (ground (arith, e)) ∙ ap (◌++ []) (drop_all ds), (λ e. refl, tt)),
)
