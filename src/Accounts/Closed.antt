-- ===== src/Accounts/Closed.antt =====
-- Which users the query of RequireAuth of backend/internal/middleware/auth.go can find.
use personal_space.Prelude.{
  ℕ, ◌≡◌, ◌≢◌, ◌⊎◌, refl, inl, inr, Bool, true, false, ◌||◌, Text, Option, none, some, ok, List, [],
  ◌∷◌, find, update_where, trim_space, is_empty, ltb, Option-cases, Bool-cases, arith,
}
use personal_space.Database.Rows.{UserRow, SessionRow, user_of}
use personal_space.Server.World.{World, serve}
use personal_space.Shares.Access.{Crypto}
use personal_space.Accounts.Sessions.{
  session_user, require_auth, byte_length, active_user, without_sessions, session_of_user,
  PasswordFaults, change_own_password,
}

find-active :
    (k : ℕ) (us : List UserRow) (u : UserRow)
    → find (active_user k) us ≡ some u
    → (u.id ≡ k) × (u.is_active ≡ true)
find-active k [] u h = cc
find-active k (v ∷ us) u h = ground (arith, h, find-active k us u)

-- A user whose sessions are deleted is not found.
pub session_user-closed :
    (hash : Text) (now id : ℕ) (us : List UserRow) (ss : List SessionRow) (u : UserRow)
    → session_user hash now us (without_sessions (session_of_user id) ss) ≡ some u
    → u.id ≢ id
unfolding session_user without_sessions
session_user-closed hash now id us [] u h = cc
session_user-closed hash now id us (s ∷ ss) u h =
    ground (arith, h, session_user-closed hash now id us ss u, find-active s.user us u)

-- Nor is one whose rows are inactive.
find-inactive :
    (f : UserRow → UserRow) (k id : ℕ) (us : List UserRow) (u : UserRow)
    → ((v : UserRow) → (f v).id ≡ v.id)
    → ((v : UserRow) → (f v).is_active ≡ false)
    → find (active_user k) (update_where (user_of id) f us) ≡ some u
    → u.id ≢ id
find-inactive f k id [] u same off h = cc
find-inactive f k id (v ∷ us) u same off h =
    ground (arith, h, same v, off v, find-inactive f k id us u same off)

pub session_user-inactive :
    (f : UserRow → UserRow) (hash : Text) (now id : ℕ) (us : List UserRow) (ss : List SessionRow)
    (u : UserRow)
    → ((v : UserRow) → (f v).id ≡ v.id)
    → ((v : UserRow) → (f v).is_active ≡ false)
    → session_user hash now (update_where (user_of id) f us) ss ≡ some u
    → u.id ≢ id
unfolding session_user
session_user-inactive f hash now id us [] u same off h = cc
session_user-inactive f hash now id us (s ∷ ss) u same off h = ground (
  arith,
  h,
  session_user-inactive f hash now id us ss u same off,
  find-inactive f s.user id us u same off,
)

-- RequireAuth lets in whom the query finds.
pub require_auth-found :
    (crypto : Crypto) (fault : Bool) (now : ℕ) (cookie : Option Text) (w : World) (u : UserRow)
    → (require_auth crypto fault now cookie w).0 ≡ ok u
    → (raw : Text) × (cookie ≡ some raw)
      × (session_user (crypto.hash_token raw) now w.db.users w.db.sessions ≡ some u)
unfolding require_auth
require_auth-found crypto fault now none w u h = absurd (ground (arith, h))
require_auth-found crypto fault now (some raw) w u h = (raw, refl, ground (arith, h))

-- A user is locked out of a state where no cookie lets it in, at any time.
abbrev pub IsLockedOut : Crypto → ℕ → World → Type 0
IsLockedOut crypto id w =
    (fault : Bool) (now : ℕ) (cookie : Option Text) (u : UserRow)
    → (require_auth crypto fault now cookie w).0 ≡ ok u
    → u.id ≢ id

pub closed-IsLockedOut :
    (crypto : Crypto) (id : ℕ) (ss : List SessionRow) (w : World)
    → w.db.sessions ≡ without_sessions (session_of_user id) ss
    → IsLockedOut crypto id w
closed-IsLockedOut crypto id ss w e fault now cookie v h =
    let (raw, same, found) = require_auth-found crypto fault now cookie w v h in
    session_user-closed (crypto.hash_token raw) now id w.db.users ss v (rw e at found)

pub inactive-IsLockedOut :
    (f : UserRow → UserRow) (crypto : Crypto) (id : ℕ) (us : List UserRow) (w : World)
    → ((v : UserRow) → (f v).id ≡ v.id)
    → ((v : UserRow) → (f v).is_active ≡ false)
    → w.db.users ≡ update_where (user_of id) f us
    → IsLockedOut crypto id w
inactive-IsLockedOut f crypto id us w same off e fault now cookie v h =
    let (raw, eq, found) = require_auth-found crypto fault now cookie w v h in
    session_user-inactive f (crypto.hash_token raw) now id us w.db.sessions v same off
      (rw e at found)

-- A change of the own password answered 200 asked for the current one, stored the hash of the new one,
-- and, where the deletion of the sessions did not fail, has locked the user out until it logs in
-- again; any other answer leaves the database as it was.
pub change_own_password-effect :
    (crypto : Crypto) (faults : PasswordFaults) (id : ℕ) (old new : Text) (w : World)
    → faults.sessions ≡ false
    → let (answer, after) =
        serve (change_own_password crypto faults (some id) (some (old, new))) w in
      ((answer.code ≡ 200)
        × ((u : UserRow) × (hash : Text) × (find (active_user id) w.db.users ≡ some u)
            × (crypto.verify_password u.password_hash (trim_space old) ≡ true)
            × (crypto.hash_password (trim_space new) ≡ some hash)
            × (after.db.users
                ≡ update_where (user_of id) (λ u. record u { password_hash = hash }) w.db.users))
        × IsLockedOut crypto id after)
      ⊎ (answer.code ≢ 200) × (after ≡ w)
unfolding change_own_password
change_own_password-effect crypto faults id old new w calm =
    elim (Bool-cases (
      is_empty (trim_space old)
      || is_empty (trim_space new)
      || ltb (byte_length (trim_space new)) 8
      || faults.load)) [
        | inl bad ↦ inr (ground (arith, bad), ground (arith, bad))
        | inr fine ↦ elim (Option-cases (find (active_user id) w.db.users)) [
          | inl missing ↦ inr (ground (arith, fine, missing), ground (arith, fine, missing))
          | inr (u, found) ↦
              elim (Bool-cases (crypto.verify_password u.password_hash (trim_space old))) [
                | inr wrong ↦
                    inr (ground (arith, fine, found, wrong), ground (arith, fine, found, wrong))
                | inl right ↦ elim (Option-cases (crypto.hash_password (trim_space new))) [
                  | inl failed ↦ inr (
                    ground (arith, fine, found, right, failed),
                    ground (arith, fine, found, right, failed),
                  )
                  | inr (hash, hashed) ↦ elim (Bool-cases faults.update) [
                    | inl broken ↦ inr (
                      ground (arith, fine, found, right, hashed, broken),
                      ground (arith, fine, found, right, hashed, broken),
                    )
                    | inr stored ↦ inl (
                      ground (arith, fine, found, right, hashed, stored),
                      (
                        u,
                        hash,
                        found,
                        right,
                        hashed,
                        ground (arith, fine, found, right, hashed, stored, calm),
                      ),
                      closed-IsLockedOut crypto id w.db.sessions _
                          (ground (arith, fine, found, right, hashed, stored, calm)),
                    )
                  ]
                ]
              ]
        ]
      ]
