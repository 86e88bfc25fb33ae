-- ===== src/ControlPlane/Accounts/Lockout.antt =====
-- How many wrong passwords are allowed after a right one.
use ota_robot_system.Base.{
  ℕ, suc, ◌+◌, ◌≤◌, ◌<◌, ◌≡◌, ◌≢◌, refl, String, true, false, Option, none, some, List, [], ◌∷◌,
  length, All, leb, trim, arith, Bool-cases, ◌⊎◌, inl, inr,
}
use ota_robot_system.ControlPlane.Accounts.{
  Account, Sessions, Crypto, Moment, refusal, signed_in, get_user_by_email_or_username,
  with_attempts, update_user_failed_attempts, is_locked, lock_seconds, issued, issue, wrong, known,
  login,
}
use ota_robot_system.ControlPlane.Accounts.Guesses.{
  find-change_user, guesses, IsWrong, login-known, login-locked,
}

-- The account that is found by a name.
abbrev IsFound : String → Sessions → Account → Type 0
IsFound username s a = get_user_by_email_or_username (trim username) s ≡ some a

module _ (c : Crypto) (username : String) (named : trim username ≢ "") where
  issued-IsFound :
      (message access : String) (now : ℕ) (a b : Account) (o : Option String) (s : Sessions)
      → IsFound username s b
      → IsFound username (issued c message now a access o s).0 b
  unfolding issued
  issued-IsFound message access now a b none s h = h
  issued-IsFound message access now a b (some raw) s h = h

  issue-IsFound :
      (message : String) (m : Moment) (a b : Account) (o : Option String) (s : Sessions)
      → IsFound username s b
      → IsFound username (issue c message m a o s).0 b
  unfolding issue
  issue-IsFound message m a b none s h = h
  issue-IsFound message m a b (some access) s h =
      issued-IsFound message access m.now a b m.random s h

  -- The right password of an account that is not locked clears its count.
  login-IsFound :
      (m : Moment) (password : String) (a : Account) (s : Sessions)
      → trim password ≢ ""
      → IsFound username s a
      → is_locked m.now a ≡ false
      → c.check_password a.password_hash (trim password) ≡ true
      → IsFound username (login c m username password s).0 (with_attempts 0 none a)
  unfolding known
  login-IsFound m password a s n t free right =
      rw (login-known c username a.password_hash m.now named m password s a n t, free, right)
        (issue-IsFound "failed to generate refresh token" m a (with_attempts 0 none a)
          (c.access_token a) (update_user_failed_attempts a.id 0 none s)
          (find-change_user (trim username) 0 none a s.accounts t))

  module _ (a : Account) (start : ℕ) where
    wrong-IsFound :
        (k now : ℕ) (s : Sessions)
        → k + 1 < 5
        → IsFound username s (with_attempts k none a)
        → IsFound username (wrong c now (with_attempts k none a) s).0 (with_attempts (k + 1) none a)
    unfolding wrong
    wrong-IsFound k now s l t =
        let e : leb 5 (k + 1) ≡ false = ground (arith, l) in
        rw e (find-change_user (trim username) (k + 1) none (with_attempts k none a) s.accounts t)

    login-wrong :
        (k : ℕ) (m : Moment) (password : String) (s : Sessions)
        → k + 1 < 5
        → IsWrong c a.password_hash start (m, password)
        → IsFound username s (with_attempts k none a)
        → IsFound username (login c m username password s).0 (with_attempts (k + 1) none a)
    unfolding known is_locked
    login-wrong k m password s l h t =
        rw
          (
            login-known c username a.password_hash start named m password s (with_attempts k none a)
                h.2 t,
            h.3,
          )
          (wrong-IsFound k m.now s l t)

    -- Fewer than five wrong passwords are counted, and lock nothing.
    guesses-IsFound :
        (k : ℕ) (gs : List (Moment × String)) (s : Sessions)
        → k + length gs < 5
        → All (IsWrong c a.password_hash start) gs
        → IsFound username s (with_attempts k none a)
        → IsFound username (guesses c username gs s) (with_attempts (k + length gs) none a)
    unfolding guesses
    guesses-IsFound k [] s l h t = let e : k + 0 ≡ k = omega arith in rw e t
    guesses-IsFound k ((m, password) ∷ gs) s l h t =
        let e : k + suc (length gs) ≡ k + 1 + length gs = omega arith in
        rw e (
          guesses-IsFound (k + 1) gs (login c m username password s).0 (omega (arith, l)) h.1
            (login-wrong k m password s (omega (arith, l)) h.0 t))

  -- A right password of an account that is not locked signs it in.
  login-signed_in :
      (m : Moment) (password access raw : String) (a : Account) (s : Sessions)
      → trim password ≢ ""
      → IsFound username s a
      → is_locked m.now a ≡ false
      → c.check_password a.password_hash (trim password) ≡ true
      → c.access_token a ≡ some access
      → m.random ≡ some raw
      → (login c m username password s).1 ≡ signed_in a access raw
  unfolding known issue issued
  login-signed_in m password access raw a s n t free right e r =
      rw (login-known c username a.password_hash m.now named m password s a n t, free, right, e, r)
        refl

-- The right password of an account that is not locked, whatever was counted before, then attempts in
-- the 15 minutes from then, all with wrong passwords, and then, still in these minutes, the right
-- password again, with tokens that can be made: it signs in if there were fewer than five wrong ones;
-- after five or more it is refused and changes nothing.
pub login-guesses :
    (c : Crypto) (username password access raw : String) (a : Account) (first m : Moment)
    (gs : List (Moment × String)) (s : Sessions)
    → trim username ≢ ""
    → trim password ≢ ""
    → get_user_by_email_or_username (trim username) s ≡ some a
    → is_locked first.now a ≡ false
    → c.check_password a.password_hash (trim password) ≡ true
    → All (IsWrong c a.password_hash first.now) gs
    → m.now < first.now + lock_seconds
    → c.access_token (with_attempts (length gs) none a) ≡ some access
    → m.random ≡ some raw
    → let t = guesses c username gs (login c first username password s).0 in
      ((length gs < 5)
        × ((login c m username password t).1
            ≡ signed_in (with_attempts (length gs) none a) access raw))
      ⊎ ((5 ≤ length gs)
          × (login c m username password t
              ≡ (t, refusal 429 "account is locked due to consecutive failed attempts")))
unfolding is_locked
login-guesses c username password access raw a first m gs s u n t free right h b e r =
    let begun = (login c first username password s).0 in
    let cleared = login-IsFound c username u first password a s n t free right in
    elim (Bool-cases (leb 5 (length gs))) [
      | inl l ↦ inr (
        ground (arith, l),
        login-locked c username password first.now (with_attempts 0 none a) gs m begun u cleared
            refl h (ground (arith, l)) b n,
      )
      | inr l ↦
          let k : 0 + length gs ≡ length gs = omega arith in
          let counted : IsFound username (guesses c username gs begun)
              (with_attempts (length gs) none a) =
            rw k at (
              guesses-IsFound c username u a first.now 0 gs begun (ground (arith, l, k)) h
                cleared) in
          inl (
            ground (arith, l),
            login-signed_in c username u m password access raw (with_attempts (length gs) none a)
                (guesses c username gs begun) n counted refl right e r,
          )
    ]
