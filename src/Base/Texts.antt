-- ===== src/Base/Texts.antt =====
-- JavaScript strings: `trim`, `startsWith`, `toLowerCase` and `includes`, on the code points. Case
-- is changed on the ASCII letters, and the white space is that of ASCII.
use Prim.Native.Char.{Char, code}
use Prim.Native.Nat.{ℕ, ◌+◌, ◌-◌}
use Prim.Native.String.{String}
use mathlib.Core.Bool.{Bool, true, false, ◌&&◌, ◌||◌, false≢true}
use mathlib.Core.List.{List, [], ◌∷◌, map}
use mathlib.Core.Path.{◌≡◌, refl, ap, ◌∙◌}
use mathlib.Core.Logic.{inl, inr}
use native.Mathlib.Omega.{arith}
use ota_robot_system.Base.Tests.{&&_iff, nat_beq_iff, leb, Bool-cases, if◌then◌else◌, ◌==◌, nat_eq}

abbrev pub codes : String → List ℕ
codes String.[] = []
codes (String.◌∷◌ c s) = code c ∷ codes s

-- Tab, line feed, vertical tab, form feed, carriage return and the space.
is_space : ℕ → Bool
is_space c = (leb 9 c && leb c 13) || c == 32

trim_start : String → String
trim_start String.[] = String.[]
trim_start (String.◌∷◌ c s) = if is_space (code c) then trim_start s else String.◌∷◌ c s

keep_end : Char → String → String
keep_end c String.[] = if is_space (code c) then String.[] else String.◌∷◌ c String.[]
keep_end c (String.◌∷◌ d s) = String.◌∷◌ c (String.◌∷◌ d s)

trim_end : String → String
unfolding keep_end
trim_end String.[] = String.[]
trim_end (String.◌∷◌ c s) = keep_end c (trim_end s)

unfoldable pub trim : String → String
unfolding is_space trim_start trim_end
trim s = trim_end (trim_start s)

lower : ℕ → ℕ
lower c = if leb b'A' c && leb c b'Z' then c + 32 else c

unfoldable pub to_lower_case : String → List ℕ
unfolding lower
to_lower_case s = map lower (codes s)

upper : ℕ → ℕ
upper c = if leb b'a' c && leb c b'z' then c - 32 else c

-- `s.toUpperCase()`, on the code points of a string.
unfoldable pub to_upper_case : List ℕ → List ℕ
unfolding upper
to_upper_case s = map upper s

has_prefix : List ℕ → List ℕ → Bool
has_prefix s [] = true
has_prefix [] (d ∷ t) = false
has_prefix (c ∷ s) (d ∷ t) = c == d && has_prefix s t

-- `s.startsWith(t)`.
unfoldable pub starts_with : String → String → Bool
unfolding has_prefix
starts_with s t = has_prefix (codes s) (codes t)

-- `s.includes(t)`, of the code points of two strings.
unfoldable pub contains : List ℕ → List ℕ → Bool
unfolding has_prefix
contains [] t = has_prefix [] t
contains (c ∷ s) t = has_prefix (c ∷ s) t || contains s t

-- A text that does not begin with white space.
IsSolid : String → Type 0
IsSolid String.[] = Unit
IsSolid (String.◌∷◌ c s) = is_space (code c) ≡ false

trim_start-IsSolid : (s : String) → IsSolid (trim_start s)
unfolding trim_start IsSolid
trim_start-IsSolid String.[] = tt
trim_start-IsSolid (String.◌∷◌ c s) = elim (Bool-cases (is_space (code c))) [
  | inl e ↦ rw e (trim_start-IsSolid s)
  | inr e ↦ rw e e
]

trim_start_of_solid : (s : String) → IsSolid s → trim_start s ≡ s
unfolding trim_start IsSolid
trim_start_of_solid String.[] h = refl
trim_start_of_solid (String.◌∷◌ c s) h = rw h refl

keep_end-IsSolid : (c : Char) (s : String) → is_space (code c) ≡ false → IsSolid (keep_end c s)
unfolding keep_end IsSolid
keep_end-IsSolid c String.[] h = rw h h
keep_end-IsSolid c (String.◌∷◌ d s) h = h

trim_end-IsSolid : (s : String) → IsSolid s → IsSolid (trim_end s)
unfolding trim_end IsSolid
trim_end-IsSolid String.[] h = tt
trim_end-IsSolid (String.◌∷◌ c s) h = keep_end-IsSolid c (trim_end s) h

trim_end-keep_end :
    (c : Char) (s : String) → trim_end s ≡ s → trim_end (keep_end c s) ≡ keep_end c s
unfolding trim_end keep_end
trim_end-keep_end c String.[] h = elim (Bool-cases (is_space (code c))) [
  | inl e ↦ rw e refl
  | inr e ↦ rw e (rw e refl)
]
trim_end-keep_end c (String.◌∷◌ d s) h = rw h refl

trim_end-trim_end : (s : String) → trim_end (trim_end s) ≡ trim_end s
unfolding trim_end
trim_end-trim_end String.[] = refl
trim_end-trim_end (String.◌∷◌ c s) = trim_end-keep_end c (trim_end s) (trim_end-trim_end s)

-- Trimming a second time changes nothing.
pub trim-trim : (s : String) → trim (trim s) ≡ trim s
unfolding trim
trim-trim s =
    ap trim_end (
      trim_start_of_solid (trim_end (trim_start s))
        (trim_end-IsSolid (trim_start s) (trim_start-IsSolid s)))
    ∙ trim_end-trim_end (trim_start s)

prefixes :
    (s t u : List ℕ)
    → has_prefix s t ≡ true
    → has_prefix s u ≡ true
    → (has_prefix t u || has_prefix u t) ≡ true
unfolding has_prefix
prefixes s [] [] h k = refl
prefixes s (d ∷ t) [] h k = refl
prefixes s [] (e ∷ u) h k = refl
prefixes [] (d ∷ t) (e ∷ u) h k = absurd (false≢true h)
prefixes (c ∷ s) (d ∷ t) (e ∷ u) h k =
    let x = (&&_iff (c == d) (has_prefix s t)).0 h in
    let y = (&&_iff (c == e) (has_prefix s u)).0 k in
    ground (arith, prefixes s t u x.1 y.1, nat_beq_iff c d, nat_beq_iff c e)

-- Of two beginnings of one text, one is a beginning of the other.
pub starts_with-both :
    (s t u : String)
    → starts_with s t ≡ true
    → starts_with s u ≡ true
    → (starts_with t u || starts_with u t) ≡ true
unfolding starts_with
starts_with-both s t u h k = prefixes (codes s) (codes t) (codes u) h k
