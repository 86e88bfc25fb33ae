-- ===== src/ControlPlane/Accounts/Guesses.antt =====
-- Who guesses a password is locked out after five wrong ones.
use ota_robot_system.Base.{
  ℕ, suc, ◌+◌, ◌≤◌, ◌<◌, ◌≡◌, ◌≢◌, refl, ◌∙◌, ap, String, Bool, true, false, Option, none, some,
  List, [], ◌∷◌, find, length, All, leb, ◌==◌, string_eq, eq_refl, truthy_iff, trim, arith,
  Bool-cases, ◌⊎◌, inl, inr, if◌then◌else◌,
}
use ota_robot_system.ControlPlane.Accounts.{
  Account, Sessions, Crypto, Moment, refusal, is_named, get_user_by_email_or_username, change_user,
  with_attempts, is_locked, lock_seconds, wrong, known, login,
}

-- The row that is found, after its attempts were written.
changed :
    (b q : Bool) (name : String) (n : ℕ) (until : Option ℕ) (x : Account)
    → is_named name x ≡ q
    → is_named name (if b then with_attempts n until x else x) ≡ q
changed true q name n until x e = e
changed false q name n until x e = e

pub find-change_user :
    (name : String) (n : ℕ) (until : Option ℕ) (a : Account) (xs : List Account)
    → find (is_named name) xs ≡ some a
    → find (is_named name) (change_user a.id (with_attempts n until) xs)
      ≡ some (with_attempts n until a)
find-change_user name n until a [] h = cc
find-change_user name n until a (x ∷ xs) h = elim (Bool-cases (is_named name x)) [
  | inl e ↦
      let k : some x ≡ some a = rw e at h in
      let q : x ≡ a = cc in
      let i : (x.id == a.id) ≡ true = rw q (eq_refl a.id) in
      rw (i, e) (ap (λ y. some (with_attempts n until y)) q)
  | inr e ↦
      rw (changed (x.id == a.id) false name n until x e)
        (find-change_user name n until a xs (rw e at h))
]

-- The tables after some attempts at a name.
unfoldable pub guesses : Crypto → String → List (Moment × String) → Sessions → Sessions
guesses c name [] s = s
guesses c name ((m, password) ∷ gs) s = guesses c name gs (login c m name password s).0

-- A wrong password, in the 15 minutes from a time on.
abbrev pub IsWrong : Crypto → String → ℕ → Moment × String → Type 0
IsWrong c hash start (m, password) =
    (start ≤ m.now)
    × (m.now < start + lock_seconds)
    × (trim password ≢ "")
    × (c.check_password hash (trim password) ≡ false)

later-is_locked :
    {start : ℕ} (now : ℕ) (a : Account)
    → is_locked start a ≡ false
    → start ≤ now
    → is_locked now a ≡ false
unfolding is_locked
later-is_locked now a h l = ground (arith, h, l)

beyond-is_locked :
    (start now until : ℕ) (a : Account)
    → a.locked_until ≡ some until
    → start + lock_seconds ≤ until
    → now < start + lock_seconds
    → is_locked now a ≡ true
unfolding is_locked
beyond-is_locked start now until a e l b = rw e (ground (arith, l, b))

module _ (c : Crypto) (username hash : String) (start : ℕ) (named : trim username ≢ "") where
  -- After `k` wrong passwords: locked beyond the 15 minutes, or counted.
  record Watched (k : ℕ) (s : Sessions) : Type 0 where
    account : Account
    there : get_user_by_email_or_username (trim username) s ≡ some account
    same_hash : account.password_hash ≡ hash
    state :
        ((until : ℕ) × (account.locked_until ≡ some until) × (start + lock_seconds ≤ until))
        ⊎ ((k ≤ account.failed_attempts) × (k ≤ 4) × (is_locked start account ≡ false))

  -- A wrong password of an account that is not locked.
  wrong-Watched :
      (k now : ℕ) (a : Account) (s : Sessions)
      → get_user_by_email_or_username (trim username) s ≡ some a
      → a.password_hash ≡ hash
      → start ≤ now
      → k ≤ a.failed_attempts
      → Watched (suc k) (wrong c now a s).0
  unfolding wrong is_locked
  wrong-Watched k now a s t p l h =
      let n = a.failed_attempts + 1 in
      elim (Bool-cases (leb 5 n)) [
        | inl e ↦ rw e (record {
          account = with_attempts n (some (now + lock_seconds)) a;
          there = find-change_user (trim username) n (some (now + lock_seconds)) a s.accounts t;
          same_hash = p;
          state = inl (now + lock_seconds, refl, omega (arith, l));
        })
        | inr e ↦ rw e (record {
          account = with_attempts n none a;
          there = find-change_user (trim username) n none a s.accounts t;
          same_hash = p;
          state = inr (omega (arith, h), ground (arith, e, h), refl);
        })
      ]

  known-Watched :
      (k : ℕ) (m : Moment) (password : String) (s : Sessions)
      → IsWrong c hash start (m, password)
      → (w : Watched k s) → Watched (suc k) (known c m (trim password) (some w.account) s).0
  unfolding known
  known-Watched k m password s (a, b, n, f) w = elim w.state [
    | inl (until, e, l) ↦ rw (beyond-is_locked start m.now until w.account e l b) (record {
      account = w.account;
      there = w.there;
      same_hash = w.same_hash;
      state = inl (until, e, l);
    })
    | inr (h, l, e) ↦
        rw (later-is_locked m.now w.account e a, w.same_hash, f)
          (wrong-Watched k m.now w.account s w.there w.same_hash a h)
  ]

  pub login-known :
      (m : Moment) (password : String) (s : Sessions) (a : Account)
      → trim password ≢ ""
      → get_user_by_email_or_username (trim username) s ≡ some a
      → login c m username password s ≡ known c m (trim password) (some a) s
  unfolding login
  login-known m password s a n e =
      rw ((truthy_iff (trim username)).1 named, (truthy_iff (trim password)).1 n, e) refl

  guesses-Watched :
      (k : ℕ) (gs : List (Moment × String)) (s : Sessions)
      → All (IsWrong c hash start) gs
      → Watched k s
      → Watched (k + length gs) (guesses c username gs s)
  unfolding guesses
  guesses-Watched k [] s h w = let e : k + 0 ≡ k = omega arith in rw e w
  guesses-Watched k ((m, password) ∷ gs) s h w =
      let e : k + suc (length gs) ≡ suc k + length gs = omega arith in
      rw (e, login-known m password s w.account (h.0.2) w.there)
        (guesses-Watched (suc k) gs (known c m (trim password) (some w.account) s).0 h.1
          (known-Watched k m password s h.0 w))

  locked_out :
      (k : ℕ) (m : Moment) (password : String) (s : Sessions)
      → 5 ≤ k
      → m.now < start + lock_seconds
      → trim password ≢ ""
      → Watched k s
      → login c m username password s
        ≡ (s, refusal 429 "account is locked due to consecutive failed attempts")
  unfolding known
  locked_out k m password s five b n w =
      login-known m password s w.account n w.there ∙ elim w.state [
        | inl (until, e, l) ↦ rw (beyond-is_locked start m.now until w.account e l b) refl
        | inr (h, l, e) ↦ absurd (omega (arith, five, l))
      ]

-- An account that is not locked at some time, and five or more attempts at its name in the 15 minutes
-- from then, all with wrong passwords: an attempt after them in these minutes, with the right password
-- too, is refused and changes nothing.
pub login-locked :
    (c : Crypto) (username password : String) (start : ℕ) (a : Account)
    (gs : List (Moment × String)) (m : Moment) (s : Sessions)
    → trim username ≢ ""
    → get_user_by_email_or_username (trim username) s ≡ some a
    → is_locked start a ≡ false
    → All (IsWrong c a.password_hash start) gs
    → 5 ≤ length gs
    → m.now < start + lock_seconds
    → trim password ≢ ""
    → login c m username password (guesses c username gs s) ≡ (
      guesses c username gs s,
      refusal 429 "account is locked due to consecutive failed attempts",
    )
login-locked c username password start a gs m s u t e h five b n =
    locked_out c username a.password_hash start u (0 + length gs) m password
      (guesses c username gs s) (omega (arith, five)) b n
      (guesses-Watched c username a.password_hash start u 0 gs s h (record {
        account = a;
        there = t;
        same_hash = refl;
        state = inr (omega arith, omega arith, e);
      }))
