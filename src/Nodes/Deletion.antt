-- ===== src/Nodes/Deletion.antt =====
-- deleteFile of backend/internal/http/files.go: all of it, or nothing.
use personal_space.Prelude.{
  ℕ, ◌-◌, ◌≡◌, ◌≢◌, refl, Text, List, [], ◌∷◌, none, some, ok, find, update_where, arith,
  text_eq_refl,
}
use personal_space.Database.Rows.{FileRow, UserRow, user_of}
use personal_space.Storage.Path.{CleanPath}
use personal_space.Storage.Files.{no_faults, path_of, delete}
use personal_space.Server.World.{World, serve}
use personal_space.Uploads.Completion.{find-add_usage}
use personal_space.Nodes.Handlers.{
  DeleteFaults, own_live_file, mark_deleted, release, delete_tx, delete_file,
}

find-dropped :
    (now id owner : ℕ) (rows : List FileRow)
    → find (own_live_file id owner) (update_where (own_live_file id owner) (mark_deleted now) rows)
      ≡ none
find-dropped now id owner [] = refl
find-dropped now id owner (r ∷ rows) = ground (arith, find-dropped now id owner rows)

module _ (root : CleanPath) (faults : DeleteFaults) (now id owner : ℕ) (w : World) (rec : FileRow)
    (u : UserRow) (path : Text) (found : find (own_live_file id owner) w.db.files ≡ some rec)
    (user : find (user_of owner) w.db.users ≡ some u)
    (named : path_of root rec.storage_key ≡ ok path) where
  -- A delete_file that answers 200 leaves no live file of the owner with the id, gives the size back
  -- to the owner's usage, and, where the storage did not fail, leaves nothing at the object's path.
  pub delete_file-200 :
      faults.disk ≡ no_faults
      → (serve (delete_file root faults now (some owner) (some id)) w).0.code ≡ 200
      → (find
            (own_live_file id owner)
            (serve (delete_file root faults now (some owner) (some id)) w).1.db.files
          ≡ none)
        × (find
              (user_of owner)
              (serve (delete_file root faults now (some owner) (some id)) w).1.db.users
            ≡ some (record u { used = u.used - rec.size }))
        × ((serve (delete_file root faults now (some owner) (some id)) w).1.disk path ≡ none)
  unfolding delete_file delete_tx delete
  delete_file-200 calm h = (
    ground (arith, found, find-dropped now id owner w.db.files),
    ground (arith, found, find-add_usage owner (release rec.size) w.db.users (λ r. refl) u user),
    ground (arith, found, calm, named, text_eq_refl path),
  )

  -- A delete_file that answers anything else has changed nothing.
  pub delete_file-refused :
      (serve (delete_file root faults now (some owner) (some id)) w).0.code ≢ 200
      → (serve (delete_file root faults now (some owner) (some id)) w).1 ≡ w
  unfolding delete_file delete_tx delete
  delete_file-refused h = ground (arith, found)
