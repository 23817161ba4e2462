-- ===== src/Shares/Guarded.antt =====
-- What publicShareFileStream of backend/internal/http/shares.go lets through.
use personal_space.Prelude.{
  ℕ, ◌≡◌, true, false, Text, Option, none, some, ok, find, trim_space, is_empty, arith,
}
use personal_space.Database.Rows.{Database, ShareRow}
use personal_space.Server.World.{World}
use personal_space.Shares.Access.{Crypto, AccessFaults, by_token, is_past, resolve_public_share}

-- The password that a share has, if any, was given.
abbrev pub IsUnlocked : Crypto → Text → Option Text → Type 0
IsUnlocked crypto password none = Unit {0}
IsUnlocked crypto password (some hash) =
    (is_empty (trim_space password) ≡ false) × (crypto.verify_password hash password ≡ true)

-- The share that a token names at a time, and that its password opens.
pub record IsOpen (crypto : Crypto) (now : ℕ) (token password : Text) (db : Database) (s : ShareRow)
    : Type 0 where
  pub named : find (by_token (crypto.hash_token (trim_space token))) db.shares ≡ some s
  pub live : s.is_revoked ≡ false
  pub current : is_past s.expires_at now ≡ false
  pub unlocked : IsUnlocked crypto password s.password_hash

module _ (crypto : Crypto) (faults : AccessFaults) (now : ℕ) (token password : Text)
    (w : World) where
  pub resolve-IsOpen :
      (s : ShareRow)
      → (resolve_public_share crypto faults now token password true w).0 ≡ ok s
      → IsOpen crypto now token password w.db s
        × ((resolve_public_share crypto faults now token password true w).1 ≡ w)
  unfolding resolve_public_share
  resolve-IsOpen s h = (
    record {
      named = (ground arith);
      live = (ground arith);
      current = (ground arith);
      unlocked = (ground arith);
    },
    (ground arith),
  )

  pub resolve-db :
      ((resolve_public_share crypto faults now token password true w).1.db ≡ w.db)
      × ((resolve_public_share crypto faults now token password true w).1.disk ≡ w.disk)
  unfolding resolve_public_share
  resolve-db = ground arith
