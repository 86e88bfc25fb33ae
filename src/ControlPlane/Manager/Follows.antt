-- ===== src/ControlPlane/Manager/Follows.antt =====
-- What the handlers never do: they send no update, no counter falls, the number of targets stays,
-- a status changes to completed or rolled back only, and parts keep their previous versions.
use mathlib.Core.List.{append-nil}
use ota_robot_system.Base.{
  map, ℕ, ◌+◌, ◌≤◌, ◌≡◌, refl, String, Bool, true, false, Option, none, some, List, [], ◌∷◌, ◌++◌,
  ◌==◌, string_eq, arith, if◌then◌else◌, ◌⊎◌, inl, inr, ◌∙◌, ap, nat_eq,
}
use ota_robot_system.Types.{Deployment, DeploymentStatus, completed, rolled_back}
use ota_robot_system.ControlPlane.Store.{
  Store, Command, update, rollback, publish_command, get_deployment, find_deployment, change,
  with_status, with_phase, update_deployment_status, update_deployment_phase,
  increment_deployment_success, increment_deployment_failure, update_deployment_device_status,
  update_device_version,
}
use ota_robot_system.ControlPlane.Manager.Parts.{part, parts-written}

-- The robots that were sent an update.
abbrev pub updates : List (String × Command) → List String
updates [] = []
updates ((id, c) ∷ cs) = elim c [ update v h u k g ↦ id ∷ updates cs | rollback v r ↦ updates cs ]

pub updates-append :
    (xs ys : List (String × Command)) → updates (xs ++ ys) ≡ updates xs ++ updates ys
updates-append [] ys = refl
updates-append ((id, update v h u k g) ∷ xs) ys = ap (id ∷◌) (updates-append xs ys)
updates-append ((id, rollback v r) ∷ xs) ys = updates-append xs ys

abbrev pub Moves : DeploymentStatus → DeploymentStatus → Type 0
Moves a b = (b ≡ a) ⊎ (b ≡ completed) ⊎ (b ≡ rolled_back)

-- How a row may change.
pub record Grows (d e : Deployment) : Type 0 where
  pub same_id : e.id ≡ d.id
  pub same_total : e.total_devices ≡ d.total_devices
  pub successes : d.success_count ≤ e.success_count
  pub failures : d.failure_count ≤ e.failure_count
  pub moves : Moves d.status e.status

abbrev pub GrowsOption : Option Deployment → Option Deployment → Type 0
GrowsOption none none = Unit {0}
GrowsOption none (some e) = ⊥
GrowsOption (some d) none = ⊥
GrowsOption (some d) (some e) = Grows d e

Grows-refl : (d : Deployment) → Grows d d
Grows-refl d = record {
  same_id = refl;
  same_total = refl;
  successes = omega arith;
  failures = omega arith;
  moves = inl refl;
}

Moves-trans : (a b c : DeploymentStatus) → Moves a b → Moves b c → Moves a c
Moves-trans a b c h (inl e) = ground (arith, h)
Moves-trans a b c h (inr k) = inr k

Grows-trans : (a b c : Deployment) → Grows a b → Grows b c → Grows a c
Grows-trans a b c h k = record {
  same_id = k.same_id ∙ h.same_id;
  same_total = k.same_total ∙ h.same_total;
  successes = omega (arith, h.successes, k.successes);
  failures = omega (arith, h.failures, k.failures);
  moves = Moves-trans a.status b.status c.status h.moves k.moves;
}

pub GrowsOption-refl : (o : Option Deployment) → GrowsOption o o
GrowsOption-refl none = tt
GrowsOption-refl (some d) = Grows-refl d

pub GrowsOption-trans :
    (a b c : Option Deployment) → GrowsOption a b → GrowsOption b c → GrowsOption a c
GrowsOption-trans none none none h k = tt
GrowsOption-trans none none (some c) h k = absurd k
GrowsOption-trans none (some b) c h k = absurd h
GrowsOption-trans (some a) none c h k = absurd h
GrowsOption-trans (some a) (some b) none h k = absurd k
GrowsOption-trans (some a) (some b) (some c) h k = Grows-trans a b c h k

-- Tables that may come after others.
pub record Follows (s t : Store) : Type 0 where
  pub sent : updates t.commands ≡ updates s.commands
  pub grows : (id : String) → GrowsOption (get_deployment id s) (get_deployment id t)
  pub parts : map part t.units ≡ map part s.units

pub Follows-refl : (s : Store) → Follows s s
Follows-refl s = record {
  sent = refl;
  grows = λ id. GrowsOption-refl (get_deployment id s);
  parts = refl;
}

pub Follows-trans : (s t u : Store) → Follows s t → Follows t u → Follows s u
Follows-trans s t u h k = record {
  sent = k.sent ∙ h.sent;
  parts = k.parts ∙ h.parts;
  grows = λ id.
      GrowsOption-trans (get_deployment id s) (get_deployment id t) (get_deployment id u)
        (h.grows id) (k.grows id);
}

-- A row that is found, or one behind it.
found :
    (b c : Bool) (d e : Deployment) (o p : Option Deployment)
    → c ≡ b
    → Grows d e
    → GrowsOption o p
    → GrowsOption (if b then some d else o) (if c then some e else p)
found true true d e o p q h k = h
found false false d e o p q h k = k
found true false d e o p q h k = cc
found false true d e o p q h k = cc

changed-Grows :
    (b : Bool) (f : Deployment → Deployment) (d : Deployment)
    → Grows d (f d)
    → Grows d (if b then f d else d)
changed-Grows true f d h = h
changed-Grows false f d h = Grows-refl d

-- A change of the rows of one rollout.
find-change :
    (id j : String) (f : Deployment → Deployment) (ds : List Deployment)
    → ((d : Deployment) → Grows d (f d))
    → GrowsOption (find_deployment id ds) (find_deployment id (change j f ds))
find-change id j f [] h = tt
find-change id j f (d ∷ ds) h =
    let g = changed-Grows (d.id == j) f d (h d) in
    found (d.id == id) ((if d.id == j then f d else d).id == id) d (if d.id == j then f d else d)
      (find_deployment id ds) (find_deployment id (change j f ds)) (ap (λ i. i == id) g.same_id) g
      (find-change id j f ds h)

of_change :
    (j : String) (f : Deployment → Deployment) (s : Store)
    → ((d : Deployment) → Grows d (f d))
    → Follows s (record s { deployments = change j f s.deployments })
of_change j f s h = record {
  sent = refl;
  grows = λ id. find-change id j f s.deployments h;
  parts = refl;
}

pub update_deployment_status-Follows :
    (j : String) (st : DeploymentStatus) (s : Store)
    → (st ≡ completed) ⊎ (st ≡ rolled_back)
    → Follows s (update_deployment_status j st s)
unfolding update_deployment_status
update_deployment_status-Follows j st s h = of_change j (with_status st) s (λ d. record {
  same_id = refl;
  same_total = refl;
  successes = omega arith;
  failures = omega arith;
  moves = inr h;
})

pub update_deployment_phase-Follows :
    (j : String) (n percentage : ℕ) (s : Store)
    → Follows s (update_deployment_phase j n percentage s)
unfolding update_deployment_phase
update_deployment_phase-Follows j n percentage s = of_change j (with_phase n percentage) s (λ d.
    record {
      same_id = refl;
      same_total = refl;
      successes = omega arith;
      failures = omega arith;
      moves = inl refl;
    })

pub increment_deployment_success-Follows :
    (j : String) (s : Store) → Follows s (increment_deployment_success j s)
unfolding increment_deployment_success
increment_deployment_success-Follows j s =
    of_change j (λ d. record d { success_count = d.success_count + 1 }) s
      (λ d. record {
        same_id = refl;
        same_total = refl;
        successes = omega arith;
        failures = omega arith;
        moves = inl refl;
      })

pub increment_deployment_failure-Follows :
    (j : String) (s : Store) → Follows s (increment_deployment_failure j s)
unfolding increment_deployment_failure
increment_deployment_failure-Follows j s =
    of_change j (λ d. record d { failure_count = d.failure_count + 1 }) s
      (λ d. record {
        same_id = refl;
        same_total = refl;
        successes = omega arith;
        failures = omega arith;
        moves = inl refl;
      })

-- A change of other tables.
pub unit-Follows :
    (a b st : String) (n : ℕ) (m : Option String) (s : Store)
    → Follows s (update_deployment_device_status a b st n m s)
unfolding update_deployment_device_status
unit-Follows a b st n m s = record {
  sent = refl;
  parts = parts-written a b st n m s.units;
  grows = λ id. GrowsOption-refl (get_deployment id s);
}

pub version-Follows : (d v : String) (s : Store) → Follows s (update_device_version d v s)
unfolding update_device_version
version-Follows d v s = record {
  sent = refl;
  grows = λ id. GrowsOption-refl (get_deployment id s);
  parts = refl;
}

pub rollback-Follows : (d v r : String) (s : Store) → Follows s (publish_command d (rollback v r) s)
unfolding publish_command
rollback-Follows d v r s = record {
  parts = refl;
  sent = updates-append s.commands ((d, rollback v r) ∷ []) ∙ append-nil (updates s.commands);
  grows = λ id. GrowsOption-refl (get_deployment id s);
}

-- Of two branches that both follow, so does the one taken.
pub either-Follows :
    (b : Bool) {s t u : Store} → Follows s t → Follows s u → Follows s (if b then t else u)
either-Follows true h k = h
either-Follows false h k = k
