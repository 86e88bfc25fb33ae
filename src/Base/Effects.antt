-- ===== src/Base/Effects.antt =====
-- What a handler of the dashboard does beside changing its state.
use Prim.Native.Nat.{ℕ}
use Prim.Native.String.{String, ◌++◌}
use mathlib.Core.List.{List, []}

pub data ToastType : Type 0 where
  success error warning info : ToastType

pub data Effect : Type 0 where
  -- `showToast(title, message, type, durationMs)`
  toast : String → String → ToastType → ℕ → Effect
  -- `router.push(url)`, `router.replace(url)`, `window.open(url)` and `alert(text)`
  push replace open_window alert : String → Effect
  -- a call of a function that the component was given
  callback : String → Effect

-- The default of `durationMs`.
abbrev pub default_duration : ℕ
default_duration = 4000

-- The new state of a component and the effects of the handler, first one first.
pub record Out {ℓ} (S : Type ℓ) : Type ℓ where
  pub state : S
  pub effects : List Effect

abbrev pub only {ℓ} : {S : Type ℓ} → S → Out S
only s = record { state = s; effects = [] }

-- A template literal's joining of two texts.
abbrev pub concat : String → String → String
concat s t = s ++ t
