-- ===== src/Tus/Finalize.antt =====
-- finalizeTusSessionTx of backend/internal/http/tus.go, branch by branch.
use personal_space.Prelude.{
  ℕ, ◌+◌, ◌≡◌, refl, false, Text, Option, none, some, ok, err, List, ◌∷◌, find, any, arith, text_eq,
  text_eq_refl,
}
use personal_space.Database.Rows.{UserRow, FileRow, UploadSession, user_of, file_clash, insert_file}
use personal_space.Storage.Path.{CleanPath}
use personal_space.Storage.Files.{Bytes, path_of, move}
use personal_space.Server.World.{World, Response}
use personal_space.Uploads.Session.{ensure_quota_allows_size}
use personal_space.Uploads.Init.{Keys}
use personal_space.Uploads.Complete.{file_of, complete_session}
use personal_space.Uploads.Progress.{row, find-update_session}
use personal_space.Uploads.Completion.{find-add_usage, WithinQuota}
use personal_space.Tus.Reply.{Reply, fail}
use personal_space.Tus.Patch.{PatchFaults, finalize_tus_session_tx}

-- What a finalized upload of `s` leaves, where `files` were the rows, `content` the object of its
-- temporary file and `t` its row before.
pub record IsFinalized (keys : Keys) (now object file : ℕ) (files : List FileRow)
    (content : Option Bytes) (after : World) (s t : UploadSession) (u : UserRow) (temp final : Text)
    : Type 0 where
  pub inserted : after.db.files ≡ file_of now file s.owner (keys.final s.owner now object) s ∷ files
  pub free :
      any (file_clash (file_of now file s.owner (keys.final s.owner now object) s)) files ≡ false
  pub charged :
      find (user_of s.owner) after.db.users ≡ some (record u { used = u.used + s.uploaded_bytes })
  pub within : WithinQuota u.quota (u.used + s.uploaded_bytes)
  pub completed : row s.owner s.id after ≡ some (complete_session file t)
  pub moved : after.disk final ≡ content
  pub gone : after.disk temp ≡ none

module _ (root : CleanPath) (keys : Keys) (faults : PatchFaults) (now object file : ℕ) (w : World)
    (s t : UploadSession) (temp final : Text) (found : row s.owner s.id w ≡ some t)
    (from_path : path_of root s.temp_key ≡ ok temp)
    (to_path : path_of root (keys.final s.owner now object) ≡ ok final)
    (apart : text_eq temp final ≡ false) where
  pub finalize_tus-IsFinalized :
      (u : UserRow)
      → find (user_of s.owner) w.db.users ≡ some u
      → (finalize_tus_session_tx root keys faults now object file s w).0 ≡ ok tt
      → IsFinalized keys now object file w.db.files
          (w.disk temp)
          (finalize_tus_session_tx root keys faults now object file s w).1
          s
          t
          u
          temp
          final
  unfolding finalize_tus_session_tx insert_file move ensure_quota_allows_size
  finalize_tus-IsFinalized u user h =
      let facts =
        find-add_usage s.owner (λ r. record r { used = r.used + s.uploaded_bytes }) w.db.users
          (λ r. refl) u user in
      let saved =
        find-update_session s.owner s.id (complete_session file) w.db.uploads (λ r. refl) t found in
      record {
        inserted = ground (arith, from_path, to_path);
        free = ground (arith, from_path, to_path);
        charged = ground (arith, from_path, to_path, facts);
        within = ground (arith, from_path, to_path, facts);
        completed = ground (arith, from_path, to_path, saved);
        moved = ground (arith, from_path, to_path, text_eq_refl final, text_eq_refl temp, apart);
        gone = ground (arith, from_path, to_path, text_eq_refl final, text_eq_refl temp, apart);
      }

  pub finalize_tus-code :
      (r : Response Reply)
      → (finalize_tus_session_tx root keys faults now object file s w).0 ≡ err r
      → r ≡ fail 500 "could not finalize tus upload"
  unfolding finalize_tus_session_tx insert_file move ensure_quota_allows_size
  finalize_tus-code r h = ground (arith, from_path, to_path)
