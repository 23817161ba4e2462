-- ===== src/Accounts/Sessions.antt =====
-- login, logout and me of backend/internal/http/router.go, RequireAuth and RequireAdmin of
-- backend/internal/middleware/auth.go, and changeOwnPassword of backend/internal/http/auth_password.go.
use personal_space.Prelude.{
  ℕ, ◌+◌, Bool, true, false, ◌&&◌, ◌||◌, not, String, Text, codes, text_eq, Option, none, some,
  Exec, List, [], ◌∷◌, ltb, ◌==◌, if◌then◌else◌, any, find, update_where, trim_space, is_empty,
  stop, stop_if, some_or, gets, modify, return, ◌>>=◌, ◌>>◌,
}
use personal_space.Database.Rows.{UserRow, SessionRow, user_of}
use personal_space.Server.World.{World, Response, respond, Action, Handler, insert_audit}
use personal_space.Shares.Access.{Crypto}

-- What is shown of a user.
pub record UserView : Type 0 where
  pub id : ℕ
  pub username : Text
  pub role : Text
  pub is_active : Bool
  pub quota : Option ℕ
  pub used : ℕ

abbrev pub view_of : UserRow → UserView
view_of u = record {
  id = u.id;
  username = u.username;
  role = u.role;
  is_active = u.is_active;
  quota = u.quota;
  used = u.used;
}

-- The session cookie that is set: its value and when it ends.
pub record Cookie : Type 0 where
  pub value : Text
  pub expires : ℕ

pub data AccountReply : Type 0 where
  error : String → AccountReply
  logged_in : ℕ → Text → Text → Cookie → AccountReply
  ok_true logged_out : AccountReply
  user : Option UserView → AccountReply
  users : List UserView → AccountReply
  created : ℕ → Text → Text → Bool → AccountReply

abbrev pub fail : ℕ → String → Response AccountReply
fail code message = respond code (error message)

-- WHERE s.token_hash = $1 AND s.expires_at > $2
abbrev pub is_current : Text → ℕ → SessionRow → Bool
is_current hash now s = text_eq s.token_hash hash && ltb now s.expires_at

-- ON u.id = s.user_id … AND u.is_active = true
abbrev pub active_user : ℕ → UserRow → Bool
active_user id u = u.id == id && u.is_active

-- The first row of the join.
unfoldable pub session_user : Text → ℕ → List UserRow → List SessionRow → Option UserRow
session_user hash now us [] = none
session_user hash now us (s ∷ ss) =
    let rest = session_user hash now us ss in
    if is_current hash now s
    then elim (find (active_user s.user) us) [ none ↦ rest | some u ↦ some u ]
    else rest

abbrev pub no_cookie : Option Text → Bool
no_cookie none = true
no_cookie (some value) = is_empty value

abbrev pub value_of : Option Text → Text
value_of none = []
value_of (some value) = value

-- RequireAuth: the user of the context.
unfoldable pub require_auth : Crypto → Bool → ℕ → Option Text → Action AccountReply UserRow
require_auth crypto fault now cookie = do
  stop_if (no_cookie cookie) (fail 401 "authentication required")
  found ←
      gets (λ w. session_user (crypto.hash_token (value_of cookie)) now w.db.users w.db.sessions)
  stop_if fault (fail 401 "invalid session")
  some_or found (fail 401 "invalid session")

-- RequireAdmin, behind RequireAuth
unfoldable pub require_admin : UserRow → Action AccountReply (Unit {0})
require_admin u = stop_if (not (text_eq u.role (codes "admin"))) (fail 403 "admin role required")

pub record LoginFaults : Type 0 where
  pub load : Bool
  pub store : Bool
  pub audit : Bool

-- WHERE username = $1 AND is_active = true
abbrev pub by_name : Text → UserRow → Bool
by_name username u = text_eq u.username username && u.is_active

abbrev pub with_session : SessionRow → World → World
with_session s w = record w { db = record w.db { sessions = s ∷ w.db.sessions } }

-- token_hash text UNIQUE
abbrev same_token : Text → SessionRow → Bool
same_token hash s = text_eq s.token_hash hash

abbrev refused : Bool → Option ℕ → Exec World (Response AccountReply) (Unit {0})
refused audit who =
    insert_audit audit (record { user = who; action = "auth.login.failed"; target = none })
    >> stop (fail 401 "invalid credentials")

abbrev user_or : Bool → Option UserRow → Action AccountReply UserRow
user_or audit none = refused audit none >> stop (fail 401 "invalid credentials")
user_or audit (some u) = return u

abbrev checked : Bool → UserRow → Bool → Exec World (Response AccountReply) (Unit {0})
checked audit u true = return tt
checked audit u false = refused audit (some u.id)

abbrev unless : Bool → Option UserRow → Option UserRow
unless true found = none
unless false found = found

-- login, behind its rate limit; `body` is the user name and the password, `token` the random token,
-- `none` where there is none to be had, and `ttl` the lifetime of a session.
unfoldable pub login :
    Crypto → LoginFaults → ℕ → ℕ → Option Text → Option (Text × Text) → Handler AccountReply
login crypto faults now ttl token body = do
  req ← some_or body (fail 400 "invalid request body")
  let (given, password) = req
  let username = trim_space given
  stop_if (is_empty username || is_empty password) (fail 400 "username and password are required")
  found ← gets (λ w. find (by_name username) w.db.users)
  u ← user_or faults.audit (unless faults.load found)
  checked faults.audit u (crypto.verify_password u.password_hash password)
  raw ← some_or token (fail 500 "could not create session")
  taken ← gets (λ w. any (same_token (crypto.hash_token raw)) w.db.sessions)
  stop_if (faults.store || taken) (fail 500 "could not store session")
  modify (
      with_session
        (record { user = u.id; token_hash = crypto.hash_token raw; expires_at = now + ttl }))
  insert_audit faults.audit
      (record { user = some u.id; action = "auth.login.success"; target = some u.id })
  return
      (respond 200 (logged_in u.id u.username u.role (record { value = raw; expires = now + ttl })))

-- DELETE FROM sessions WHERE …
unfoldable pub without_sessions : (SessionRow → Bool) → List SessionRow → List SessionRow
without_sessions p [] = []
without_sessions p (s ∷ ss) = let rest = without_sessions p ss in if p s then rest else s ∷ rest

-- A failure of the deletion is ignored everywhere.
abbrev pub drop_sessions : Bool → (SessionRow → Bool) → World → World
drop_sessions fault p w =
    if fault
    then w
    else record w { db = record w.db { sessions = without_sessions p w.db.sessions } }

abbrev pub session_of_user : ℕ → SessionRow → Bool
session_of_user id s = s.user == id

-- logout
unfoldable pub logout : Crypto → Bool → Option Text → Handler AccountReply
logout crypto fault cookie = do
  modify (
      drop_sessions (fault || no_cookie cookie)
        (λ s. text_eq s.token_hash (crypto.hash_token (value_of cookie))))
  return (respond 200 logged_out)

-- me
unfoldable pub me : Option UserRow → Handler AccountReply
me current = do
  u ← some_or current (fail 401 "authentication required")
  return (respond 200 (user (some (view_of u))))

-- len(s): the bytes of the text in UTF-8.
unfoldable pub byte_length : Text → ℕ
byte_length [] = 0
byte_length (c ∷ cs) =
    let rest = byte_length cs in
    if ltb c 0x80
    then 1 + rest
    else if ltb c 0x800
    then 2 + rest
    else if ltb c 0x10000
    then 3 + rest
    else 4 + rest

abbrev pub update_user : ℕ → (UserRow → UserRow) → World → World
update_user id f w = record w {
  db = record w.db { users = update_where (user_of id) f w.db.users };
}

pub record PasswordFaults : Type 0 where
  pub load : Bool
  pub update : Bool
  pub sessions : Bool
  pub audit : Bool

-- changeOwnPassword; `body` is the current and the new password.
unfoldable pub change_own_password :
    Crypto → PasswordFaults → Option ℕ → Option (Text × Text) → Handler AccountReply
change_own_password crypto faults current body = do
  id ← some_or current (fail 401 "authentication required")
  req ← some_or body (fail 400 "invalid request body")
  let (old, new) = req
  stop_if (is_empty (trim_space old) || is_empty (trim_space new))
      (fail 400 "currentPassword and newPassword are required")
  stop_if (ltb (byte_length (trim_space new)) 8)
      (fail 400 "newPassword must be at least 8 characters")
  found ← gets (λ w. find (active_user id) w.db.users)
  stop_if faults.load (fail 401 "invalid user session")
  u ← some_or found (fail 401 "invalid user session")
  stop_if (not (crypto.verify_password u.password_hash (trim_space old)))
      (fail 401 "current password is incorrect")
  hash ← some_or (crypto.hash_password (trim_space new)) (fail 500 "could not hash new password")
  stop_if faults.update (fail 500 "could not update password")
  modify (update_user id (λ u. record u { password_hash = hash }))
  modify (drop_sessions faults.sessions (session_of_user id))
  insert_audit faults.audit
      (record { user = some id; action = "auth.password.changed"; target = some id })
  return (respond 200 ok_true)
