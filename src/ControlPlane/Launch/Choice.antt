-- ===== src/ControlPlane/Launch/Choice.antt =====
-- Which robots a request for a rollout chooses.
use mathlib.Core.Logic.Or
use mathlib.Core.List.{mem-cons, mem-cons_of_mem}
use mathlib.Core.Path.{subst}
use ota_robot_system.Base.{
  ◌≡◌, refl, sym, ◌∙◌, ap, String, Bool, true, ◌&&◌, ◌||◌, Option, none, some, List, [], ◌∷◌,
  filter, find, All, includes, Mem, mem-filter, ◌==◌, string_eq, eq_iff, eq_refl, arith, Bool-cases,
  ◌⊎◌, inl, inr,
}
use ota_robot_system.Types.{Device, is_online}
use ota_robot_system.ControlPlane.Store.{Store, get_device}
use ota_robot_system.ControlPlane.Launch.{Services, fits, with_device, named, choose}

-- A robot of the table that fits, and is named by the request, or online where it names none.
abbrev pub IsChosen : String → List String → Store → Device → Type 0
IsChosen target_hw ids s d =
    Mem d s.devices
    × (fits target_hw d ≡ true)
    × ((includes ids d.id ≡ true) ⊎ ((ids ≡ []) × (is_online d ≡ true)))

find-id :
    (id : String) (ds : List Device) (d : Device)
    → find (λ d. d.id == id) ds ≡ some d
    → Mem d ds × (d.id ≡ id)
find-id id [] d h = cc
find-id id (c ∷ ds) d h = elim (Bool-cases (c.id == id)) [
  | inl e ↦
      let k : some c ≡ some d = rw e at h in
      let q : c ≡ d = cc in
      (mem-cons.1 (Or.inl (sym q)), ap (λ d. d.id) (sym q) ∙ (eq_iff c.id id).0 e)
  | inr e ↦ let k = find-id id ds d (rw e at h) in (mem-cons_of_mem c k.0, k.1)
]

-- What is named: in the table, fitting, and of one of the ids.
abbrev IsNamed : String → List String → Store → Device → Type 0
IsNamed target_hw ids s d = Mem d s.devices × (fits target_hw d ≡ true) × (includes ids d.id ≡ true)

All-later :
    (target_hw id : String) (ids : List String) (s : Store) (ds : List Device)
    → All (IsNamed target_hw ids s) ds
    → All (IsNamed target_hw (id ∷ ids) s) ds
All-later hw id ids s [] h = tt
All-later hw id ids s (d ∷ ds) h =
    ((h.0.0, h.0.1, ground (arith, h.0.2)), All-later hw id ids s ds h.1)

with_device-All :
    (target_hw id : String) (ids : List String) (s : Store) (o : Option Device)
    (others : Option (List Device)) (ds : List Device)
    → get_device id s ≡ o
    → ((es : List Device) → others ≡ some es → All (IsNamed target_hw (id ∷ ids) s) es)
    → with_device target_hw o others ≡ some ds
    → All (IsNamed target_hw (id ∷ ids) s) ds
with_device-All hw id ids s none others ds e k h = k ds h
with_device-All hw id ids s (some d) none ds e k h = cc
with_device-All hw id ids s (some d) (some es) ds e k h = elim (Bool-cases (fits hw d)) [
  | inl f ↦
      let q : some (d ∷ es) ≡ some ds = rw f at h in
      let (m, i) = find-id id s.devices d e in
      let j : (id == d.id || includes ids d.id) ≡ true = rw i (ground (arith, eq_refl id)) in
      let e : d ∷ es ≡ ds = cc q in subst (All (IsNamed hw (id ∷ ids) s)) e ((m, f, j), k es refl)
  | inr f ↦ absurd (ground (arith, f, h))
]

named-All :
    (target_hw : String) (ids : List String) (s : Store) (ds : List Device)
    → named target_hw ids s ≡ some ds
    → All (IsNamed target_hw ids s) ds
unfolding named
named-All hw [] s [] h = tt
named-All hw [] s (d ∷ ds) h = cc
named-All hw (id ∷ ids) s ds h =
    with_device-All hw id ids s (get_device id s) (named hw ids s) ds refl
      (λ es e. All-later hw id ids s es (named-All hw ids s es e)) h

All-mem : {P : Device → Type 0} (ds : List Device) → ((d : Device) → Mem d ds → P d) → All P ds
All-mem [] h = tt
All-mem (d ∷ ds) h = (h d (mem-cons.1 (Or.inl refl)), All-mem ds (λ e m. h e (mem-cons_of_mem d m)))

All-map :
    {P Q : Device → Type 0} (ds : List Device) → ((d : Device) → P d → Q d) → All P ds → All Q ds
All-map [] f h = tt
All-map (d ∷ ds) f h = (f d h.0, All-map ds f h.1)

-- The robots of a request are chosen, if the order of the database is one of its rows.
pub choose-All :
    (w : Services) (target_hw : String) (ids : List String) (s : Store) (ds : List Device)
    → ((d : Device) → Mem d (w.order s.devices) → Mem d s.devices)
    → choose w target_hw ids s ≡ some ds
    → All (IsChosen target_hw ids s) ds
unfolding choose
choose-All w hw [] s ds k h =
    let p : Device → Bool = λ d. is_online d && fits hw d in
    let q : filter p (w.order s.devices) ≡ ds = cc in
    subst (All (IsChosen hw [] s)) q (
      All-mem (filter p (w.order s.devices)) (λ d m.
        let (there, good) = (mem-filter p (w.order s.devices) d).0 m in
        (k d there, ground (arith, good), inr (refl, ground (arith, good)))))
choose-All w hw (id ∷ ids) s ds k h =
    All-map ds (λ d (m, f, i). (m, f, inl i)) (named-All hw (id ∷ ids) s ds h)
