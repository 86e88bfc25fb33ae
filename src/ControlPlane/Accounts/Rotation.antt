-- ===== src/ControlPlane/Accounts/Rotation.antt =====
-- A token of a session is good for one refresh, and for none after a logout.
use ota_robot_system.Base.{
  ℕ, ◌≤◌, ◌≡◌, ◌≢◌, refl, String, Bool, true, false, not, ◌&&◌, Option, none, some, List, [], ◌∷◌,
  ◌++◌, filter, find, ltb, ◌==◌, string_eq, eq_iff, truthy, truthy_iff, arith, Bool-cases, inl, inr,
}
use ota_robot_system.ControlPlane.Accounts.{
  Account, Token, Sessions, Crypto, Moment, Answer, refusal, issued, issue, renewed, rotated,
  refresh, logout, delete_refresh_token, get_refresh_token, get_user_by_id,
}

-- No token of a hash is valid.
abbrev IsDead : String → ℕ → Sessions → Type 0
IsDead hash now s = get_refresh_token hash now s ≡ none

abbrev matches : String → ℕ → Token → Bool
matches hash now t = t.token_hash == hash && ltb now t.expires_at

find-filter :
    (hash : String) (now : ℕ) (ts : List Token)
    → find (matches hash now) (filter (λ t. not (t.token_hash == hash)) ts) ≡ none
find-filter hash now [] = refl
find-filter hash now (t ∷ ts) = elim (Bool-cases (t.token_hash == hash)) [
  | inl e ↦ rw e (find-filter hash now ts)
  | inr e ↦ rw (e, e) (find-filter hash now ts)
]

find-append :
    (hash : String) (now : ℕ) (ts : List Token) (t : Token)
    → find (matches hash now) ts ≡ none
    → (t.token_hash == hash) ≡ false
    → find (matches hash now) (ts ++ t ∷ []) ≡ none
find-append hash now [] t h k = rw k refl
find-append hash now (u ∷ ts) t h k = ground (arith, h, k, find-append hash now ts t)

find-later :
    (hash : String) (now later : ℕ) (ts : List Token)
    → now ≤ later
    → find (matches hash now) ts ≡ none
    → find (matches hash later) ts ≡ none
find-later hash now later [] l h = refl
find-later hash now later (t ∷ ts) l h = ground (arith, l, h, find-later hash now later ts l)

module _ (c : Crypto) (raw : String) (m : Moment)
    (fresh : (r : String)
      → m.random ≡ some r
      → c.hash_refresh_token r ≢ c.hash_refresh_token raw) where
  abbrev hash : String
  hash = c.hash_refresh_token raw

  issued-IsDead :
      (message access : String) (a : Account) (o : Option String) (now later : ℕ) (s : Sessions)
      → m.random ≡ o
      → IsDead hash later s
      → IsDead hash later (issued c message now a access o s).0
  unfolding issued
  issued-IsDead message access a none now later s e h = h
  issued-IsDead message access a (some r) now later s e h =
      find-append hash later s.tokens _ h
        (ground (arith, fresh r e, eq_iff (c.hash_refresh_token r) hash))

  issue-IsDead :
      (message : String) (a : Account) (o : Option String) (later : ℕ) (s : Sessions)
      → IsDead hash later s
      → IsDead hash later (issue c message m a o s).0
  unfolding issue
  issue-IsDead message a none later s h = h
  issue-IsDead message a (some access) later s h =
      issued-IsDead message access a m.random m.now later s refl h

  renewed-IsDead :
      (o : Option Account) (later : ℕ) (s : Sessions)
      → IsDead hash later s
      → IsDead hash later (renewed c m o s).0
  unfolding renewed
  renewed-IsDead none later s h = h
  renewed-IsDead (some a) later s h =
      issue-IsDead "failed to rotate refresh token" a (c.access_token a) later s h

  rotated-IsDead :
      (o : Option Token) (later : ℕ) (s : Sessions)
      → m.now ≤ later
      → get_refresh_token hash m.now s ≡ o
      → IsDead hash later (rotated c m hash o s).0
  unfolding rotated
  rotated-IsDead none later s l e = find-later hash m.now later s.tokens l e
  rotated-IsDead (some t) later s l e =
      let u = delete_refresh_token hash s in
      renewed-IsDead (get_user_by_id t.user_id u) later u (find-filter hash later s.tokens)

  refresh-IsDead :
      (later : ℕ) (s : Sessions)
      → truthy raw ≡ true
      → m.now ≤ later
      → IsDead hash later (refresh c m raw s).0
  unfolding refresh
  refresh-IsDead later s w l = rw w (rotated-IsDead (get_refresh_token hash m.now s) later s l refl)

-- A refused refresh, which changes nothing.
abbrev pub IsRefused : Sessions → Sessions × Answer → Type 0
IsRefused s r = r ≡ (s, refusal 401 "session expired or invalid")

refresh-IsRefused :
    (c : Crypto) (raw : String) (m : Moment) (s : Sessions)
    → truthy raw ≡ true
    → IsDead (c.hash_refresh_token raw) m.now s
    → IsRefused s (refresh c m raw s)
unfolding refresh rotated
refresh-IsRefused c raw m s w h = rw (w, h) refl

logout-IsDead :
    (c : Crypto) (raw : String) (now : ℕ) (s : Sessions)
    → truthy raw ≡ true
    → IsDead (c.hash_refresh_token raw) now (logout c raw s).0
unfolding logout
logout-IsDead c raw now s w = rw w (find-filter (c.hash_refresh_token raw) now s.tokens)

-- A refresh token that is not empty, if time does not go back and the next random token has another
-- hash: once a refresh with it was asked for, answered or refused, a later refresh with it is refused
-- and changes nothing; and so is one after a logout with it.
pub refresh-once :
    (c : Crypto) (raw : String) (m later : Moment) (s : Sessions)
    → raw ≢ ""
    → m.now ≤ later.now
    → ((r : String) → m.random ≡ some r → c.hash_refresh_token r ≢ c.hash_refresh_token raw)
    → IsRefused (refresh c m raw s).0 (refresh c later raw (refresh c m raw s).0)
      × IsRefused (logout c raw s).0 (refresh c later raw (logout c raw s).0)
refresh-once c raw m later s n l fresh =
    let w = (truthy_iff raw).1 n in
    (
      refresh-IsRefused c raw later (refresh c m raw s).0 w
          (refresh-IsDead c raw m fresh later.now s w l),
      refresh-IsRefused c raw later (logout c raw s).0 w (logout-IsDead c raw later.now s w),
    )
