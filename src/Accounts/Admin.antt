-- ===== src/Accounts/Admin.antt =====
-- The administration of users: backend/internal/http/admin_users.go, behind RequireAuth and RequireAdmin.
use personal_space.Prelude.{
  ℕ, Bool, true, false, ◌&&◌, ◌||◌, not, String, Text, codes, text_eq, Option, none, some, Result,
  ok, err, ◌∷◌, map, ltb, ◌==◌, if◌then◌else◌, any, find, update_where, trim_space, is_empty, ℤ,
  pos, negsuc, stop, stop_if, some_or, lift, gets, modify, return, ◌>>=◌, ◌>>◌,
}
use personal_space.Database.Rows.{
  UserRow, Database, Executed, done, unique_violation, broken, user_of,
}
use personal_space.Server.World.{Response, respond, Action, Handler, insert_audit}
use personal_space.Shares.Access.{Crypto}
use personal_space.Accounts.Sessions.{
  AccountReply, ok_true, user, users, created, UserView, view_of, fail, byte_length, update_user,
  drop_sessions, session_of_user,
}

-- adminGetUsers, up to the order of the rows.
unfoldable pub admin_get_users : Bool → Handler AccountReply
admin_get_users fault = do
  stop_if fault (fail 500 "could not load users")
  rows ← gets (λ w. map view_of w.db.users)
  return (respond 200 (users rows))

-- adminCreateUserRequest
pub record CreateUserRequest : Type 0 where
  pub username : Text
  pub password : Text
  pub role : Text
  pub quota : Option ℤ
  pub is_active : Option Bool

abbrev pub is_role : Text → Bool
is_role role = text_eq role (codes "user") || text_eq role (codes "admin")

abbrev role_or_user : Text → Text
role_or_user role = if is_empty role then codes "user" else role

-- storageQuotaBytes: refused where it is negative.
abbrev pub quota_of : Option ℤ → Result (Response AccountReply) (Option ℕ)
quota_of none = ok none
quota_of (some (pos n)) = ok (some n)
quota_of (some (negsuc n)) = err (fail 400 "storageQuotaBytes cannot be negative")

abbrev pub flag_or : Bool → Option Bool → Bool
flag_or current none = current
flag_or current (some b) = b

abbrev same_name : Text → UserRow → Bool
same_name username u = text_eq u.username username

-- INSERT INTO users; username is UNIQUE.
unfoldable pub insert_user : Bool → UserRow → Database → Executed
insert_user fault u db =
    if fault
    then broken
    else if any (same_name u.username) db.users
    then unique_violation
    else done (record db { users = u ∷ db.users })

abbrev stored_or : String → Executed → Action AccountReply (Unit {0})
stored_or message (done db) = modify (λ w. record w { db = db })
stored_or message unique_violation = stop (fail 409 "username already exists")
stored_or message broken = stop (fail 500 message)

pub record AdminFaults : Type 0 where
  pub load : Bool
  pub write : Bool
  pub sessions : Bool
  pub audit : Bool
  pub reload : Bool

abbrev pub new_user : ℕ → Text → CreateUserRequest → Option ℕ → UserRow
new_user id hash req quota = record {
  id = id;
  username = trim_space req.username;
  role = role_or_user (trim_space req.role);
  password_hash = hash;
  is_active = flag_or true req.is_active;
  quota = quota;
  used = 0;
}

-- adminCreateUser
unfoldable pub admin_create_user :
    Crypto → AdminFaults → ℕ → Option ℕ → Option CreateUserRequest → Handler AccountReply
admin_create_user crypto faults id current body = do
  admin ← some_or current (fail 401 "authentication required")
  req ← some_or body (fail 400 "invalid request body")
  stop_if (is_empty (trim_space req.username) || is_empty (trim_space req.password))
      (fail 400 "username and password are required")
  stop_if (ltb (byte_length (trim_space req.password)) 8)
      (fail 400 "password must be at least 8 characters")
  stop_if (not (is_role (role_or_user (trim_space req.role))))
      (fail 400 "role must be user or admin")
  quota ← lift (quota_of req.quota)
  hash ←
      some_or (crypto.hash_password (trim_space req.password)) (fail 500 "could not hash password")
  let u = new_user id hash req quota
  inserted ← gets (λ w. insert_user faults.write u w.db)
  stored_or "could not create user" inserted
  insert_audit faults.audit
      (record { user = some admin; action = "admin.user.created"; target = some id })
  return (respond 201 (created id u.username u.role u.is_active))

-- fetchUserByID, with the answers of its callers.
unfoldable pub fetch_user_by_id : Bool → ℕ → Action AccountReply UserRow
fetch_user_by_id fault id = do
  found ← gets (λ w. find (user_of id) w.db.users)
  stop_if fault (fail 500 "could not load user")
  some_or found (fail 404 "user not found")

-- adminGetUser
unfoldable pub admin_get_user : Bool → Option ℕ → Handler AccountReply
admin_get_user fault target = do
  id ← some_or target (fail 400 "invalid user id")
  u ← fetch_user_by_id fault id
  return (respond 200 (user (some (view_of u))))

-- adminPatchUserRequest
pub record PatchUserRequest : Type 0 where
  pub username : Option Text
  pub role : Option Text
  pub is_active : Option Bool
  pub quota : Option ℤ
  pub clear_quota : Option Bool

unfoldable pub patched_name : Option Text → Text → Result (Response AccountReply) Text
patched_name none current = ok current
patched_name (some name) current =
    if is_empty (trim_space name)
    then err (fail 400 "username cannot be empty")
    else ok (trim_space name)

unfoldable pub patched_role : Option Text → Text → Result (Response AccountReply) Text
patched_role none current = ok current
patched_role (some role) current =
    if is_role (trim_space role)
    then ok (trim_space role)
    else err (fail 400 "role must be user or admin")

abbrev pub set_quota : Option ℤ → Option ℕ → Result (Response AccountReply) (Option ℕ)
set_quota none current = ok current
set_quota (some n) current = quota_of (some n)

abbrev pub patched_user : Text → Text → Bool → Option ℕ → UserRow → UserRow
patched_user name role is_active quota u = record u {
  username = name;
  role = role;
  is_active = is_active;
  quota = quota;
}

abbrev other_with : ℕ → Text → UserRow → Bool
other_with id name u = not (u.id == id) && text_eq u.username name

-- UPDATE users SET … WHERE id=$5
unfoldable pub patch_row : Bool → ℕ → Text → (UserRow → UserRow) → Database → Executed
patch_row fault id name f db =
    if fault
    then broken
    else if any (other_with id name) db.users && any (user_of id) db.users
    then unique_violation
    else done (record db { users = update_where (user_of id) f db.users })

abbrev reloaded : Bool → Option UserRow → Option UserView
reloaded true u = none
reloaded false none = none
reloaded false (some u) = some (view_of u)

-- adminPatchUser
unfoldable pub admin_patch_user :
    AdminFaults → Option ℕ → Option ℕ → Option PatchUserRequest → Handler AccountReply
admin_patch_user faults current target body = do
  admin ← some_or current (fail 401 "authentication required")
  id ← some_or target (fail 400 "invalid user id")
  req ← some_or body (fail 400 "invalid request body")
  u ← fetch_user_by_id faults.load id
  name ← lift (patched_name req.username u.username)
  role ← lift (patched_role req.role u.role)
  quota ← lift (set_quota req.quota u.quota)
  let cleared = if flag_or false req.clear_quota then none else quota
  let is_active = flag_or u.is_active req.is_active
  result ←
      gets (λ w. patch_row faults.write id name (patched_user name role is_active cleared) w.db)
  stored_or "could not update user" result
  modify (drop_sessions (is_active || faults.sessions) (session_of_user id))
  insert_audit faults.audit
      (record { user = some admin; action = "admin.user.updated"; target = some id })
  updated ← gets (λ w. find (user_of id) w.db.users)
  return (respond 200 (user (reloaded faults.reload updated)))

-- How ids are written: `parse` is uuid.Parse, which reads several spellings of an id, and `spell` the one
-- in which the database writes it, and in which the session has the administrator's.
pub record Spelling : Type 0 where
  pub parse : Text → Option ℕ
  pub spell : ℕ → Text

-- adminDeleteUser; `target` is the id as the URL has it, and the guard compares the spellings.
unfoldable pub admin_delete_user : Spelling → AdminFaults → Option ℕ → Text → Handler AccountReply
admin_delete_user ids faults current target = do
  admin ← some_or current (fail 401 "authentication required")
  id ← some_or (ids.parse target) (fail 400 "invalid user id")
  stop_if (text_eq target (ids.spell admin)) (fail 400 "admin cannot deactivate itself")
  stop_if faults.write (fail 500 "could not deactivate user")
  present ← gets (λ w. any (user_of id) w.db.users)
  modify (update_user id (λ u. record u { is_active = false }))
  stop_if (not present) (fail 404 "user not found")
  modify (drop_sessions faults.sessions (session_of_user id))
  insert_audit faults.audit
      (record { user = some admin; action = "admin.user.deactivated"; target = some id })
  return (respond 200 ok_true)

-- adminChangeUserPassword
unfoldable pub admin_change_user_password :
    Crypto → AdminFaults → Option ℕ → Option ℕ → Option Text → Handler AccountReply
admin_change_user_password crypto faults current target body = do
  admin ← some_or current (fail 401 "authentication required")
  id ← some_or target (fail 400 "invalid user id")
  password ← some_or body (fail 400 "invalid request body")
  stop_if (ltb (byte_length (trim_space password)) 8)
      (fail 400 "newPassword must be at least 8 characters")
  hash ← some_or (crypto.hash_password (trim_space password)) (fail 500 "could not hash password")
  stop_if faults.write (fail 500 "could not update password")
  present ← gets (λ w. any (user_of id) w.db.users)
  modify (update_user id (λ u. record u { password_hash = hash }))
  stop_if (not present) (fail 404 "user not found")
  modify (drop_sessions faults.sessions (session_of_user id))
  insert_audit faults.audit
      (record { user = some admin; action = "admin.user.password.changed"; target = some id })
  return (respond 200 ok_true)
