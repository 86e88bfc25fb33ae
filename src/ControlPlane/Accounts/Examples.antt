-- ===== src/ControlPlane/Accounts/Examples.antt =====
-- An account, attempts at it, and its sessions.
use ota_robot_system.Base.{
  ℕ, ◌≤◌, ◌<◌, ◌≡◌, sym, ◌∙◌, All, ◌≢◌, ◌⊎◌, refl, String, false, none, some, List, [], ◌∷◌, ◌==◌,
  string_eq, eq_iff, arith, concat, trim,
}
use ota_robot_system.ControlPlane.Accounts.{
  Account, Sessions, Crypto, Moment, refusal, signed_in, with_attempts, is_locked, login, refresh,
  logout,
}
use ota_robot_system.ControlPlane.Accounts.Guesses.{guesses, IsWrong}
use ota_robot_system.ControlPlane.Accounts.Lockout.{login-guesses}
use ota_robot_system.ControlPlane.Accounts.Rotation.{IsRefused, refresh-once}

abbrev crypto : Crypto
crypto = record {
  check_password = λ hash password. hash == concat "hash of " password;
  hash_refresh_token = λ raw. raw;
  access_token = λ a. some a.id;
}

abbrev operator : Account
operator = record {
  id = "u1";
  username = "operator";
  email = none;
  password_hash = "hash of secret";
  failed_attempts = 2;
  locked_until = some 50;
  role = "operator";
}

abbrev sessions : Sessions
sessions = record {
  accounts = operator ∷ [];
  tokens = record { user_id = "u1"; token_hash = "old"; expires_at = 5000 } ∷ [];
}

abbrev at : ℕ → String → Moment
at now random = record { now = now; random = some random }

abbrev tries : List (Moment × String)
tries =
    (at 100 "a", "one")
    ∷ (at 101 "b", "two")
    ∷ (at 102 "c", "three")
    ∷ (at 103 "d", "four")
    ∷ (at 104 "e", "five")
    ∷ []

-- The right password, when nothing was guessed.
login-operator :
    (login crypto (at 100 "new") "operator" " secret " sessions).1 ≡ signed_in operator "u1" "new"
unfolding login is_locked trim
login-operator = refl

-- The old lock is over.
free : is_locked 100 operator ≡ false
unfolding is_locked
free = refl

not_blank : (p : String) → trim p ≡ p → (p == "") ≡ false → trim p ≢ ""
not_blank p t n e = ground (arith, n, eq_iff p "", sym t ∙ e)

tried-IsWrong :
    (now : ℕ) (random p : String)
    → 100 ≤ now
    → now < 1000
    → trim p ≡ p
    → (p == "") ≡ false
    → ("hash of secret" == concat "hash of " p) ≡ false
    → IsWrong crypto "hash of secret" 100 (at now random, p)
tried-IsWrong now random p a b t n h = (a, b, not_blank p t n, rw t h)

tries-IsWrong : All (IsWrong crypto "hash of secret" 100) tries
unfolding trim
tries-IsWrong = (
  tried-IsWrong 100 "a" "one" (omega arith) (omega arith) refl refl refl,
  (
    tried-IsWrong 101 "b" "two" (omega arith) (omega arith) refl refl refl,
    (
      tried-IsWrong 102 "c" "three" (omega arith) (omega arith) refl refl refl,
      (
        tried-IsWrong 103 "d" "four" (omega arith) (omega arith) refl refl refl,
        (tried-IsWrong 104 "e" "five" (omega arith) (omega arith) refl refl refl, tt),
      ),
    ),
  ),
)

trim-operator : trim "operator" ≡ "operator"
unfolding trim
trim-operator = refl

trim-secret : trim "secret" ≡ "secret"
unfolding trim
trim-secret = refl

login-guesses_example :
    let t =
      guesses crypto "operator" tries (login crypto (at 100 "z") "operator" "secret" sessions).0 in
    ((5 < 5)
      × ((login crypto (at 900 "f") "operator" "secret" t).1
          ≡ signed_in (with_attempts 5 none operator) "u1" "f"))
    ⊎ ((5 ≤ 5)
        × (login crypto (at 900 "f") "operator" "secret" t
            ≡ (t, refusal 429 "account is locked due to consecutive failed attempts")))
login-guesses_example =
    login-guesses crypto "operator" "secret" "u1" "f" operator (at 100 "z") (at 900 "f") tries
      sessions (not_blank "operator" trim-operator refl) (not_blank "secret" trim-secret refl)
      (rw trim-operator refl) free (rw trim-secret refl) tries-IsWrong (omega arith) refl refl

refresh-once_example :
    let s = (refresh crypto (at 100 "new") "old" sessions).0 in
    let t = (logout crypto "old" sessions).0 in
    IsRefused s (refresh crypto (at 200 "other") "old" s)
    × IsRefused t (refresh crypto (at 200 "other") "old" t)
refresh-once_example =
    refresh-once crypto "old" (at 100 "new") (at 200 "other") sessions
      (λ e. ground (arith, e, eq_iff "old" "")) (omega arith)
      (λ r e k. let q : "new" ≡ r = cc in ground (arith, q, k, eq_iff "new" "old"))
