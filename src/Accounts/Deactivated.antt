-- ===== src/Accounts/Deactivated.antt =====
-- What adminDeleteUser and adminPatchUser of backend/internal/http/admin_users.go achieve.
use personal_space.Prelude.{
  ℕ, ◌≡◌, Bool, true, List, [], ◌∷◌, any, Bool-cases, text_eq, text_eq_iff, text_eq_refl, ◌≢◌, refl,
  inl, inr, false, Text, Option, none, some, err, if◌then◌else◌, find, update_where, Option-cases,
  Result-cases, arith, ℤ,
}
use personal_space.Database.Rows.{UserRow, user_of}
use personal_space.Server.World.{World, Response, serve}
use personal_space.Shares.Access.{Crypto}
use personal_space.Accounts.Sessions.{AccountReply}
use personal_space.Accounts.Admin.{
  Spelling, AdminFaults, PatchUserRequest, admin_delete_user, admin_patch_user, fetch_user_by_id,
  patched_name, patched_role, patch_row, set_quota, flag_or, patched_user,
}
use personal_space.Accounts.Closed.{IsLockedOut, inactive-IsLockedOut}

-- A user that adminDeleteUser has deactivated is locked out, also where the deletion of its sessions
-- failed.
pub admin_delete_user-locked :
    (ids : Spelling) (crypto : Crypto) (faults : AdminFaults) (admin id : ℕ) (target : Text)
    (w : World)
    → ids.parse target ≡ some id
    → (serve (admin_delete_user ids faults (some admin) target) w).0.code ≡ 200
    → IsLockedOut crypto id (serve (admin_delete_user ids faults (some admin) target) w).1
unfolding admin_delete_user
admin_delete_user-locked ids crypto faults admin id target w read h =
    inactive-IsLockedOut (λ u. record u { is_active = false }) crypto id w.db.users _ (λ v. refl)
      (λ v. refl) (ground (arith, h, read))

-- It is answered 200 under a spelling that is not the one in which the session has the administrator's
-- id, whosever id it spells.
admin_delete_user-passes :
    (ids : Spelling) (faults : AdminFaults) (admin id : ℕ) (target : Text) (w : World)
    → ids.parse target ≡ some id
    → target ≢ ids.spell admin
    → faults.write ≡ false
    → any (user_of id) w.db.users ≡ true
    → (serve (admin_delete_user ids faults (some admin) target) w).0.code ≡ 200
unfolding admin_delete_user
admin_delete_user-passes ids faults admin id target w read other writes present =
    elim (Bool-cases (text_eq target (ids.spell admin))) [
      | inl same ↦ absurd (other ((text_eq_iff target (ids.spell admin)).0 same))
      | inr differ ↦ ground (arith, read, differ, writes, present)
    ]

-- The one spelling of the session is refused, and nothing changes.
admin_delete_user-itself :
    (ids : Spelling) (faults : AdminFaults) (admin : ℕ) (w : World)
    → ids.parse (ids.spell admin) ≡ some admin
    → ((serve (admin_delete_user ids faults (some admin) (ids.spell admin)) w).0.code ≡ 400)
      × ((serve (admin_delete_user ids faults (some admin) (ids.spell admin)) w).1 ≡ w)
unfolding admin_delete_user
admin_delete_user-itself ids faults admin w read =
    let same = text_eq_refl (ids.spell admin) in
    (ground (arith, read, same), ground (arith, read, same))

-- A value that is refused is answered with an error.
name-refused :
    (name : Option Text) (current : Text) (a : Response AccountReply)
    → patched_name name current ≡ err a
    → a.code ≢ 200
unfolding patched_name
name-refused name current a h = ground arith

role-refused :
    (role : Option Text) (current : Text) (a : Response AccountReply)
    → patched_role role current ≡ err a
    → a.code ≢ 200
unfolding patched_role
role-refused role current a h = ground arith

quota-refused :
    (quota : Option ℤ) (current : Option ℕ) (a : Response AccountReply)
    → set_quota quota current ≡ err a
    → a.code ≢ 200
quota-refused quota current a h = ground arith

patch-users :
    (faults : AdminFaults) (admin id : ℕ) (req : PatchUserRequest) (w : World)
    → req.is_active ≡ some false
    → (serve (admin_patch_user faults (some admin) (some id) (some req)) w).0.code ≡ 200
    → (name role : Text) × (quota : Option ℕ) × ((serve
          (admin_patch_user faults (some admin) (some id) (some req))
          w).1.db.users
        ≡ update_where (user_of id) (patched_user name role false quota) w.db.users)
unfolding admin_patch_user fetch_user_by_id patch_row
patch-users faults admin id req w off h = elim (Option-cases (find (user_of id) w.db.users)) [
  | inl missing ↦ absurd (ground (arith, h, missing))
  | inr (u, found) ↦ elim (Result-cases (patched_name req.username u.username)) [
    | inr (a, bad) ↦ absurd (ground (arith, h, found, bad, name-refused req.username u.username a))
    | inl (name, n) ↦ elim (Result-cases (patched_role req.role u.role)) [
      | inr (a, bad) ↦ absurd (ground (arith, h, found, n, bad, role-refused req.role u.role a))
      | inl (role, r) ↦ elim (Result-cases (set_quota req.quota u.quota)) [
        | inr (a, bad) ↦
            absurd (ground (arith, h, found, n, r, bad, quota-refused req.quota u.quota a))
        | inl (quota, q) ↦ (
          name,
          role,
          (if flag_or false req.clear_quota then none else quota),
          ground (arith, h, found, n, r, q, off),
        )
      ]
    ]
  ]
]

-- A user that adminPatchUser has deactivated is locked out as well.
admin_patch_user-locked :
    (crypto : Crypto) (faults : AdminFaults) (admin id : ℕ) (req : PatchUserRequest) (w : World)
    → req.is_active ≡ some false
    → (serve (admin_patch_user faults (some admin) (some id) (some req)) w).0.code ≡ 200
    → IsLockedOut crypto id (serve (admin_patch_user faults (some admin) (some id) (some req)) w).1
admin_patch_user-locked crypto faults admin id req w off h =
    let (name, role, quota, e) = patch-users faults admin id req w off h in
    inactive-IsLockedOut (patched_user name role false quota) crypto id w.db.users _ (λ v. refl)
      (λ v. refl) e

any-find :
    (test : UserRow → Bool) (us : List UserRow) (u : UserRow)
    → find test us ≡ some u
    → any test us ≡ true
any-find test [] u h = cc
any-find test (v ∷ us) u h = ground (arith, any-find test us u)

patch-present :
    (faults : AdminFaults) (admin id : ℕ) (req : PatchUserRequest) (w : World)
    → (serve (admin_patch_user faults (some admin) (some id) (some req)) w).0.code ≡ 200
    → any (user_of id) w.db.users ≡ true
unfolding admin_patch_user fetch_user_by_id
patch-present faults admin id req w h = elim (Option-cases (find (user_of id) w.db.users)) [
  | inl missing ↦ absurd (ground (arith, h, missing))
  | inr (u, found) ↦ any-find (user_of id) w.db.users u found
]

-- The guard that keeps an administrator from deactivating itself holds for one spelling of its id on one
-- route alone. adminDeleteUser refuses the id as the session spells it, and changes nothing. Where the
-- patch that deactivates the administrator who asks for it is answered 200, the administrator is locked
-- out; and so it is by adminDeleteUser under any other spelling that uuid.Parse reads as its id, which
-- is answered 200 where the database carries out its UPDATE.
pub admin_patch_user-itself :
    (ids : Spelling) (crypto : Crypto) (faults deletion : AdminFaults) (admin : ℕ) (other : Text)
    (req : PatchUserRequest) (w : World)
    → ids.parse (ids.spell admin) ≡ some admin
    → ids.parse other ≡ some admin
    → other ≢ ids.spell admin
    → deletion.write ≡ false
    → req.is_active ≡ some false
    → (serve (admin_patch_user faults (some admin) (some admin) (some req)) w).0.code ≡ 200
    → ((serve (admin_delete_user ids deletion (some admin) (ids.spell admin)) w).0.code ≡ 400)
      × ((serve (admin_delete_user ids deletion (some admin) (ids.spell admin)) w).1 ≡ w)
      × IsLockedOut crypto admin
          (serve (admin_patch_user faults (some admin) (some admin) (some req)) w).1
      × ((serve (admin_delete_user ids deletion (some admin) other) w).0.code ≡ 200)
      × IsLockedOut crypto admin (serve (admin_delete_user ids deletion (some admin) other) w).1
admin_patch_user-itself ids crypto faults deletion admin other req w reads parses differs writes off
      h =
    let (refused, same) = admin_delete_user-itself ids deletion admin w reads in
    let passes =
      admin_delete_user-passes ids deletion admin admin other w parses differs writes
        (patch-present faults admin admin req w h) in
    (
      refused,
      same,
      admin_patch_user-locked crypto faults admin admin req w off h,
      passes,
      admin_delete_user-locked ids crypto deletion admin admin other w parses passes,
    )
