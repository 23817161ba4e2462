-- ===== src/Accounts/Login.antt =====
-- What login of backend/internal/http/router.go opens.
use personal_space.Prelude.{
  ℕ, ◌+◌, ◌<◌, ◌≡◌, inl, inr, true, false, Text, text_eq_refl, some, ok, List, [], ◌∷◌, find,
  trim_space, is_empty, Option-cases, Bool-cases, arith,
}
use personal_space.Database.Rows.{UserRow}
use personal_space.Server.World.{World, serve}
use personal_space.Shares.Access.{Crypto}
use personal_space.Accounts.Sessions.{
  session_user, require_auth, active_user, by_name, LoginFaults, login,
}

-- A user that is found by its name is found by its id, or another one with the same id is.
find-by_id :
    (name : Text) (us : List UserRow) (u : UserRow)
    → find (by_name name) us ≡ some u
    → (v : UserRow) × (find (active_user u.id) us ≡ some v) × (v.id ≡ u.id) × (v.is_active ≡ true)
find-by_id name [] u h = cc
find-by_id name (x ∷ us) u h = elim (Bool-cases (active_user u.id x)) [
  | inl same ↦ (x, ground (arith, same), ground (arith, same), ground (arith, same))
  | inr apart ↦
      let (v, found, e, on) = find-by_id name us u (ground (arith, h, apart)) in
      (v, ground (arith, found, apart), e, on)
]

module _ (crypto : Crypto) (faults : LoginFaults) (now ttl : ℕ) (raw given password : Text)
    (w : World) where
  abbrev pub entered : World
  entered = (serve (login crypto faults now ttl (some raw) (some (given, password))) w).1

  login-effect :
      (serve (login crypto faults now ttl (some raw) (some (given, password))) w).0.code ≡ 200
      → (u : UserRow) × (find (by_name (trim_space given)) w.db.users ≡ some u)
        × (crypto.verify_password u.password_hash password ≡ true)
        × (entered.db.users ≡ w.db.users)
        × (entered.db.sessions
            ≡ record { user = u.id; token_hash = crypto.hash_token raw; expires_at = now + ttl }
              ∷ w.db.sessions)
  unfolding login
  login-effect h = elim (Option-cases (find (by_name (trim_space given)) w.db.users)) [
    | inl missing ↦ absurd (ground (arith, h, missing))
    | inr (u, found) ↦ elim (Bool-cases (crypto.verify_password u.password_hash password)) [
      | inr wrong ↦ absurd (ground (arith, h, found, wrong))
      | inl right ↦
          (u, found, right, ground (arith, h, found, right), ground (arith, h, found, right))
    ]
  ]

  -- A login answered 200 was one of an active user with its name and password, and until the session
  -- ends its cookie lets that user in.
  pub login-require_auth :
      (later : ℕ)
      → later < now + ttl
      → is_empty raw ≡ false
      → (serve (login crypto faults now ttl (some raw) (some (given, password))) w).0.code ≡ 200
      → (u : UserRow) × (find (by_name (trim_space given)) w.db.users ≡ some u)
        × (crypto.verify_password u.password_hash password ≡ true)
        × ((v : UserRow) × ((require_auth crypto false later (some raw) entered).0 ≡ ok v)
            × (v.id ≡ u.id)
            × (v.is_active ≡ true))
  unfolding require_auth session_user
  login-require_auth later lt full h =
      let (u, found, right, same, opened) = login-effect h in
      let (v, by_id, e, on) = find-by_id (trim_space given) w.db.users u found in
      let hash = text_eq_refl (crypto.hash_token raw) in
      (u, found, right, (v, ground (arith, full, same, opened, by_id, hash, lt), e, on))
