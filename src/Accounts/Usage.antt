-- ===== src/Accounts/Usage.antt =====
-- adminStorageRecalculate of backend/internal/http/admin.go, behind RequireAuth and RequireAdmin.
use personal_space.Prelude.{
  ℕ, ◌+◌, ◌≡◌, refl, Bool, false, ◌&&◌, List, [], ◌∷◌, map, ◌==◌, if◌then◌else◌, any, stop_if,
  modify, return, ◌>>◌, arith,
}
use personal_space.Database.Rows.{UserRow, FileRow, is_live}
use personal_space.Server.World.{World, respond, Handler, serve}
use personal_space.Accounts.Sessions.{AccountReply, ok_true, fail}

-- WHERE deleted_at IS NULL GROUP BY owner_id
abbrev pub counts_for : ℕ → FileRow → Bool
counts_for owner f = f.owner == owner && is_live f.deleted_at

-- SUM(size_bytes)
unfoldable pub total_bytes : ℕ → List FileRow → ℕ
total_bytes owner [] = 0
total_bytes owner (f ∷ fs) =
    let rest = total_bytes owner fs in if counts_for owner f then f.size + rest else rest

abbrev pub set_used : List FileRow → UserRow → UserRow
set_used fs u = if any (counts_for u.id) fs then record u { used = total_bytes u.id fs } else u

abbrev pub clear_used : List FileRow → UserRow → UserRow
clear_used fs u = if any (counts_for u.id) fs then u else record u { used = 0 }

abbrev on_users : (List FileRow → UserRow → UserRow) → World → World
on_users f w = record w { db = record w.db { users = map (f w.db.files) w.db.users } }

-- adminStorageRecalculate; a failure of the second update, `clearing`, is ignored.
unfoldable pub admin_storage_recalculate : Bool → Bool → Handler AccountReply
admin_storage_recalculate fault clearing = do
  stop_if fault (fail 500 "could not recalculate storage usage")
  modify (on_users set_used)
  modify (λ w. if clearing then w else on_users clear_used w)
  return (respond 200 ok_true)

total-none :
    (owner : ℕ) (fs : List FileRow) → any (counts_for owner) fs ≡ false → total_bytes owner fs ≡ 0
unfolding total_bytes
total-none owner [] h = refl
total-none owner (f ∷ fs) h = ground (arith, h, total-none owner fs)

-- The same users, each charged with the sizes of its live files.
abbrev pub AreCharged : List FileRow → List UserRow → List UserRow → Type 0
AreCharged fs [] [] = Unit
AreCharged fs [] (v ∷ vs) = ⊥
AreCharged fs (u ∷ us) [] = ⊥
AreCharged fs (u ∷ us) (v ∷ vs) =
    (v ≡ record u { used = total_bytes u.id fs }) × AreCharged fs us vs

charged :
    (fs : List FileRow) (us : List UserRow)
    → AreCharged fs us (map (clear_used fs) (map (set_used fs) us))
charged fs [] = tt
charged fs (u ∷ us) = (ground (arith, total-none u.id fs), charged fs us)

-- A recalculation whose updates do not fail charges every user with the sizes of its live files, whatever
-- it was charged before, and changes nothing else of the users.
pub admin_storage_recalculate-AreCharged :
    (w : World)
    → let after = (serve (admin_storage_recalculate false false) w).1 in
      AreCharged w.db.files w.db.users after.db.users × (after.db.files ≡ w.db.files)
unfolding admin_storage_recalculate
admin_storage_recalculate-AreCharged w = (charged w.db.files w.db.users, refl)
