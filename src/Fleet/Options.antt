-- ===== src/Fleet/Options.antt =====
-- The lists of the filter bar, and the texts for a model and for a time.
pub mod Order
use Prim.Native.Nat.{Ordering}
use Prim.Native.String.{compare}
use ota_robot_system.Base.{
  ℕ, ◌≡◌, ◌≤◌, ◌<◌, ◌/◌, refl, sym, ℤ, pos, negsuc, String, true, false, ◌&&◌, ◌||◌, Option, none,
  some, List, [], ◌∷◌, any, includes, includes-append, ◌∙◌, truthy, ltb, ◌==◌, string_eq,
  if◌then◌else◌, Bool-cases, inl, inr, arith, eq_iff,
}
use ota_robot_system.Types.{Device}
use ota_robot_system.Planning.{add}

-- `list.add(value)` for each robot whose value is not empty.
unfoldable pub collect : (Device → String) → List String → List Device → List String
collect value s [] = s
collect value s (d ∷ ds) = collect value (if truthy (value d) then add s (value d) else s) ds

-- `sort` compares texts, character by character.
unfoldable pub insert : String → List String → List String
insert x [] = x ∷ []
insert x (y ∷ ys) =
    let rest = insert x ys in elim (compare x y) [ Ordering.gt ↦ y ∷ rest | _ ↦ x ∷ y ∷ ys ]

unfoldable pub sort : List String → List String
unfolding insert
sort [] = []
sort (x ∷ xs) = insert x (sort xs)

unfoldable pub options : (Device → String) → List Device → List String
unfolding sort collect
options value devices = sort (collect value [] devices)

unfoldable pub factories : List Device → List String
unfolding options
factories devices = options (λ d. d.factory_id) devices

unfoldable pub robot_models : List Device → List String
unfolding options
robot_models devices = options (λ d. d.hw_model) devices

-- `formatRobotModel`.
unfoldable pub format_robot_model : String → String
format_robot_model model =
    if model == "agv-v1"
    then "AGV (agv-v1)"
    else if model == "scara-v1"
    then "SCARA (scara-v1)"
    else if model == "delta-v2"
    then "Delta (delta-v2)"
    else if model == "articulated-v3"
    then "Articulated (articulated-v3)"
    else if model == "cartesian-v1"
    then "Cartesian (cartesian-v1)"
    else model

-- What `formatRelativeTime` shows: the last form is the time of day.
pub data RelativeTime : Type 0 where
  never just_now at_time : RelativeTime
  seconds_ago minutes_ago : ℕ → RelativeTime

relative : ℕ → RelativeTime
relative seconds =
    if ltb seconds 5
    then just_now
    else if ltb seconds 60
    then seconds_ago seconds
    else if ltb seconds 3600
    then minutes_ago (seconds / 60)
    else at_time

since : Option ℤ → RelativeTime
unfolding relative
since none = at_time
since (some (pos ms)) = relative (ms / 1000)
since (some (negsuc ms)) = just_now

-- The clock and the reading of dates are the browser's: `elapsed` gives the milliseconds from a
-- date up to now, or nothing where the text is no date.
unfoldable pub format_relative_time : (String → Option ℤ) → Option String → RelativeTime
unfolding since
format_relative_time elapsed none = never
format_relative_time elapsed (some date) = if truthy date then since (elapsed date) else never

includes-add : (s : List String) (x y : String) → includes (add s x) y ≡ (includes s y || x == y)
unfolding add
includes-add s x y = ground (arith, includes-append s x y, eq_iff x y)

truthy_of_same : (v x : String) → truthy v ≡ true → (v == x) ≡ true → truthy x ≡ true
truthy_of_same v x t e = rw (sym ((eq_iff v x).0 e)) t

blank_of_same : (v x : String) → truthy v ≡ false → (v == x) ≡ true → truthy x ≡ false
blank_of_same v x t e = rw (sym ((eq_iff v x).0 e)) t

includes-collect :
    (value : Device → String) (s : List String) (ds : List Device) (x : String)
    → includes (collect value s ds) x ≡ (includes s x || (truthy x && any (λ d. value d == x) ds))
unfolding collect
includes-collect value s [] x = ground arith
includes-collect value s (d ∷ ds) x = elim (Bool-cases (truthy (value d))) [
  | inl t ↦ rw t (
      ground (
        arith,
        includes-collect value (add s (value d)) ds x,
        includes-add s (value d) x,
        truthy_of_same (value d) x t,
      ))
  | inr t ↦ rw t (ground (arith, includes-collect value s ds x, blank_of_same (value d) x t))
]

includes-insert :
    (x : String) (ys : List String) (y : String)
    → includes (insert x ys) y ≡ (x == y || includes ys y)
unfolding insert
includes-insert x [] y = refl
includes-insert x (z ∷ ys) y = ground (arith, includes-insert x ys y)

includes-sort : (xs : List String) (y : String) → includes (sort xs) y ≡ includes xs y
unfolding sort
includes-sort [] y = refl
includes-sort (x ∷ xs) y = ground (arith, includes-insert x (sort xs) y, includes-sort xs y)

-- The list of models offers a text exactly when it is not empty and some robot has it as its
-- model; the list of factories does so for the factories.
pub robot_models-factories :
    (devices : List Device) (x : String)
    → (includes (robot_models devices) x ≡ (truthy x && any (λ d. d.hw_model == x) devices))
      × (includes (factories devices) x ≡ (truthy x && any (λ d. d.factory_id == x) devices))
unfolding robot_models factories options
robot_models-factories devices x = (
  includes-sort (collect (λ d. d.hw_model) [] devices) x
      ∙ includes-collect (λ d. d.hw_model) [] devices x,
  includes-sort (collect (λ d. d.factory_id) [] devices) x
      ∙ includes-collect (λ d. d.factory_id) [] devices x,
)

-- Seconds below a minute and minutes below an hour.
abbrev pub InRange : RelativeTime → Type 0
InRange never = Unit
InRange just_now = Unit
InRange at_time = Unit
InRange (seconds_ago n) = (5 ≤ n) × (n < 60)
InRange (minutes_ago n) = (1 ≤ n) × (n < 60)

relative-InRange : (n : ℕ) → InRange (relative n)
unfolding relative
relative-InRange n = elim (Bool-cases (ltb n 5)) [
  | inl a ↦ rw a tt
  | inr a ↦ elim (Bool-cases (ltb n 60)) [
    | inl b ↦ rw (a, b) (ground arith, ground arith)
    | inr b ↦ elim (Bool-cases (ltb n 3600)) [
      | inl c ↦ rw (a, b, c) (ground arith, ground arith)
      | inr c ↦ rw (a, b, c) tt
    ]
  ]
]

since-InRange : (o : Option ℤ) → InRange (since o)
unfolding since
since-InRange none = tt
since-InRange (some (pos ms)) = relative-InRange (ms / 1000)
since-InRange (some (negsuc ms)) = tt

-- Whatever the clock and the text say, the seconds that are shown are from 5 to 59 and the minutes
-- from 1 to 59.
pub format_relative_time-InRange :
    (elapsed : String → Option ℤ) (date : Option String)
    → InRange (format_relative_time elapsed date)
unfolding format_relative_time
format_relative_time-InRange elapsed none = tt
format_relative_time-InRange elapsed (some date) = elim (Bool-cases (truthy date)) [
  | inl t ↦ rw t (since-InRange (elapsed date))
  | inr t ↦ rw t tt
]
