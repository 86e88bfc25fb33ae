-- ===== src/ControlPlane/Accounts.antt =====
-- The sessions of the control plane (`Login`, `Refresh` and `Logout` of
-- backend/internal/handlers/auth.go over backend/internal/db/queries/users.sql). Times are in
-- seconds. Hashes, tokens of access and random tokens are parameters. The database answers every
-- query, and texts of refusals lack the values that they quote.
pub mod Guesses
pub mod Lockout
pub mod Rotation
pub mod Examples
use ota_robot_system.Base.{
  ℕ, ◌+◌, String, Bool, true, false, not, ◌&&◌, ◌||◌, Option, none, some, List, [], ◌∷◌, ◌++◌, map,
  filter, find, ltb, leb, ◌==◌, string_eq, truthy, trim, if◌then◌else◌,
}

-- A row of `users`.
pub record Account : Type 0 where
  pub id : String
  pub username : String
  pub email : Option String
  pub password_hash : String
  pub failed_attempts : ℕ
  pub locked_until : Option ℕ
  pub role : String

-- A row of `refresh_tokens`.
pub record Token : Type 0 where
  pub user_id : String
  pub token_hash : String
  pub expires_at : ℕ

pub record Sessions : Type 0 where
  pub accounts : List Account
  pub tokens : List Token

pub record Crypto : Type 0 where
  -- a hash and a password
  pub check_password : String → String → Bool
  pub hash_refresh_token : String → String
  -- an error of the signer gives none
  pub access_token : Account → Option String

-- What a request meets: the time, and the random token that it would get.
pub record Moment : Type 0 where
  pub now : ℕ
  pub random : Option String

-- The answer with its cookies, which a refusal leaves alone.
pub data Answer : Type 0 where
  refusal : ℕ → String → Answer
  signed_in : Account → (access refresh : String) → Answer
  signed_out : Answer

abbrev pub is_named : String → Account → Bool
is_named name a = elim a.email [ none ↦ false | some e ↦ e == name ] || a.username == name

abbrev pub get_user_by_email_or_username : String → Sessions → Option Account
get_user_by_email_or_username name s = find (is_named name) s.accounts

abbrev get_user_by_id : String → Sessions → Option Account
get_user_by_id id s = find (λ a. a.id == id) s.accounts

abbrev pub change_user : String → (Account → Account) → List Account → List Account
change_user id f accounts = map (λ a. if a.id == id then f a else a) accounts

abbrev pub with_attempts : ℕ → Option ℕ → Account → Account
with_attempts n until a = record a { failed_attempts = n; locked_until = until }

-- `UPDATE users SET failed_attempts = $2, locked_until = $3 WHERE id = $1`.
abbrev update_user_failed_attempts : String → ℕ → Option ℕ → Sessions → Sessions
update_user_failed_attempts id n until s = record s {
  accounts = change_user id (with_attempts n until) s.accounts;
}

abbrev create_refresh_token : String → String → ℕ → Sessions → Sessions
create_refresh_token id hash expires s = record s {
  tokens = s.tokens ++ record { user_id = id; token_hash = hash; expires_at = expires } ∷ [];
}

-- `WHERE token_hash = $1 AND expires_at > NOW()`.
abbrev get_refresh_token : String → ℕ → Sessions → Option Token
get_refresh_token hash now s = find (λ t. t.token_hash == hash && ltb now t.expires_at) s.tokens

abbrev delete_refresh_token : String → Sessions → Sessions
delete_refresh_token hash s = record s {
  tokens = filter (λ t. not (t.token_hash == hash)) s.tokens;
}

unfoldable pub is_locked : ℕ → Account → Bool
is_locked now a = elim a.locked_until [ none ↦ false | some until ↦ ltb now until ]

-- 15 minutes and 7 days.
abbrev pub lock_seconds : ℕ
lock_seconds = 900

abbrev week_seconds : ℕ
week_seconds = 604800

module _ (c : Crypto) where
  issued : String → ℕ → Account → String → Option String → Sessions → Sessions × Answer
  issued message now a access none s = (s, refusal 500 message)
  issued message now a access (some raw) s = (
    create_refresh_token a.id (c.hash_refresh_token raw) (now + week_seconds) s,
    signed_in a access raw,
  )

  -- The tokens of a user, at a login and at a refresh.
  issue : String → Moment → Account → Option String → Sessions → Sessions × Answer
  unfolding issued
  issue message m a none s = (s, refusal 500 "failed to generate access token")
  issue message m a (some access) s = issued message m.now a access m.random s

  -- A wrong password is counted, and from the fifth on it locks the account.
  pub wrong : ℕ → Account → Sessions → Sessions × Answer
  wrong now a s =
      let n = a.failed_attempts + 1 in
      if leb 5 n
      then (
        update_user_failed_attempts a.id n (some (now + lock_seconds)) s,
        refusal 429 "account has been locked for 15 minutes due to multiple failed login attempts",
      )
      else (update_user_failed_attempts a.id n none s, refusal 401 "invalid username or password")

  pub known : Moment → String → Option Account → Sessions → Sessions × Answer
  unfolding issue wrong is_locked
  known m password none s = (s, refusal 401 "invalid username or password")
  known m password (some a) s =
      if is_locked m.now a
      then (s, refusal 429 "account is locked due to consecutive failed attempts")
      else if not (c.check_password a.password_hash password)
      then wrong m.now a s
      else issue "failed to generate refresh token" m a (c.access_token a)
          (update_user_failed_attempts a.id 0 none s)

  -- `Login`, of a body that could be read.
  unfoldable pub login : Moment → String → String → Sessions → Sessions × Answer
  unfolding known
  login m username password s =
      let name = trim username in
      let secret = trim password in
      if not (truthy name) || not (truthy secret)
      then (s, refusal 400 "username and password are required")
      else known m secret (get_user_by_email_or_username name s) s

  renewed : Moment → Option Account → Sessions → Sessions × Answer
  unfolding issue
  renewed m none s = (s, refusal 401 "user no longer exists")
  renewed m (some a) s = issue "failed to rotate refresh token" m a (c.access_token a) s

  rotated : Moment → String → Option Token → Sessions → Sessions × Answer
  unfolding renewed
  rotated m hash none s = (s, refusal 401 "session expired or invalid")
  rotated m hash (some t) s =
      let u = delete_refresh_token hash s in renewed m (get_user_by_id t.user_id u) u

  -- `Refresh`, with the cookie.
  unfoldable pub refresh : Moment → String → Sessions → Sessions × Answer
  unfolding rotated
  refresh m raw s =
      if not (truthy raw)
      then (s, refusal 401 "refresh token missing")
      else let hash = c.hash_refresh_token raw in rotated m hash (get_refresh_token hash m.now s) s

  -- `Logout`, with the cookie.
  unfoldable pub logout : String → Sessions → Sessions × Answer
  logout raw s =
      (if truthy raw then delete_refresh_token (c.hash_refresh_token raw) s else s, signed_out)
