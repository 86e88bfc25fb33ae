-- ===== src/Types/RoundTrip.antt =====
-- What is written of a robot's telemetry is read back by `parseDeviceTelemetry`.
use mathlib.Core.Bool.{true≢false}
use ota_robot_system.Base.{
  ◌≡◌, ◌≢◌, refl, String, true, false, Option, some, truthy, trim, starts_with, Bool-cases, inl,
  inr, eq_of_not-truthy, sym, ap, ◌∙◌,
}
use ota_robot_system.Types.{object, text}
use ota_robot_system.Types.Telemetry.{DeviceTelemetry}
use ota_robot_system.Types.Parse.{parse_device_telemetry}

truthy_of_trim : (s : String) → trim s ≢ "" → truthy s ≡ true
unfolding trim
truthy_of_trim s h = elim (Bool-cases (truthy s)) [
  | inl e ↦ e
  | inr e ↦ absurd (h (ap trim (eq_of_not-truthy s e)))
]

no_brace : (s : String) → s ≡ "" → starts_with s "{" ≡ false
unfolding starts_with
no_brace s e = rw e refl

-- The encoders are those of the sender, `JSON.stringify` and `btoa`; the decoders are the browser's.
module _ (json_parse : String → Option DeviceTelemetry) (atob : String → Option String)
    (stringify : DeviceTelemetry → String) (btoa : String → String) where
  -- If JSON texts begin with a brace and base64 texts are not empty and do not, and the decoders
  -- undo the encoders at these telemetry data, then the data are read back from the object itself,
  -- from its JSON text and from the base64 of this, white space around the texts put aside.
  pub parse_device_telemetry-btoa-stringify :
      (t : DeviceTelemetry) (s : String)
      → json_parse (stringify t) ≡ some t
      → starts_with (stringify t) "{" ≡ true
      → atob (btoa (stringify t)) ≡ some (stringify t)
      → starts_with (btoa (stringify t)) "{" ≡ false
      → btoa (stringify t) ≢ ""
      → (parse_device_telemetry json_parse atob (object t) ≡ some t)
        × (trim s ≡ stringify t → parse_device_telemetry json_parse atob (text s) ≡ some t)
        × (trim s ≡ btoa (stringify t) → parse_device_telemetry json_parse atob (text s) ≡ some t)
  unfolding parse_device_telemetry
  parse_device_telemetry-btoa-stringify t s parses brace decodes plain filled = (
    refl,
    λ e.
        rw
          (
            truthy_of_trim s (λ z. true≢false (sym brace ∙ no_brace (stringify t) (sym e ∙ z))),
            e,
            brace,
            parses,
          )
          refl,
    λ e. rw (truthy_of_trim s (λ z. filled (sym e ∙ z)), e, plain, decodes, parses) refl,
  )
