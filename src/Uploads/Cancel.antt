-- ===== src/Uploads/Cancel.antt =====
-- uploadStatus and uploadCancel of backend/internal/http/uploads.go, and the clean-up of expired
-- sessions in backend/internal/maintenance/cleanup.go.
use personal_space.Prelude.{
  ℕ, Bool, false, ◌&&◌, Option, none, some, List, [], ◌∷◌, ltb, if◌then◌else◌, update_where, return,
  stop_if, some_or, modify, ◌>>=◌, ◌>>◌,
}
use personal_space.Database.Rows.{UploadSession, session_of, canceled, expired}
use personal_space.Storage.Path.{CleanPath}
use personal_space.Storage.Files.{DiskFaults, delete}
use personal_space.Server.World.{World, respond, Handler, on_disk, insert_audit}
use personal_space.Uploads.Session.{Body, fail, state, ok_true, load_session, update_session}
use personal_space.Uploads.Chunk.{is_writable}

-- uploadStatus; the header Upload-Offset is the row's offset.
unfoldable pub upload_status : Bool → Option ℕ → Option ℕ → Handler Body
upload_status fault user upload = do
  owner ← some_or user (fail 401 "authentication required")
  id ← some_or upload (fail 400 "invalid upload id")
  s ← load_session fault owner id
  return (respond 200 (state s))

pub record CancelFaults : Type 0 where
  pub load : Bool
  pub save : Bool
  pub disk : DiskFaults
  pub audit : Bool

-- UPDATE upload_sessions SET status='canceled' WHERE id=$1 AND owner_id=$2
abbrev pub cancel_row : ℕ → ℕ → World → World
cancel_row upload owner w = record w {
  db = record w.db {
    uploads =
        update_where (session_of upload owner) (λ s. record s { status = canceled }) w.db.uploads;
  };
}

-- uploadCancel
unfoldable pub upload_cancel : CleanPath → CancelFaults → Option ℕ → Option ℕ → Handler Body
upload_cancel root faults user upload = do
  owner ← some_or user (fail 401 "authentication required")
  id ← some_or upload (fail 400 "invalid upload id")
  s ← load_session faults.load owner id
  stop_if faults.save (fail 500 "could not cancel upload session")
  modify (cancel_row id owner)
  removed ← on_disk (delete root faults.disk s.temp_key)
  insert_audit faults.audit
      (record { user = some owner; action = "upload.canceled"; target = some id })
  return (respond 200 ok_true)

-- WHERE status IN ('initialized','uploading','paused') AND expires_at < now()
abbrev pub is_overdue : ℕ → UploadSession → Bool
is_overdue now s = is_writable s.status && elim s.expires_at [ none ↦ false | some t ↦ ltb t now ]

-- One round of the loop; failures of its two calls are ignored.
unfoldable pub expire : CleanPath → Bool → DiskFaults → UploadSession → World → World
expire root fault disk s w =
    let marked = if fault then w else update_session s.id (λ r. record r { status = expired }) w in
    record marked { disk = (delete root disk s.temp_key marked.disk).1 }

unfoldable pub expire_all : CleanPath → Bool → DiskFaults → List UploadSession → World → World
expire_all root fault disk [] w = w
expire_all root fault disk (s ∷ rest) w =
    expire_all root fault disk rest (expire root fault disk s w)

abbrev pub filter : (UploadSession → Bool) → List UploadSession → List UploadSession
filter p [] = []
filter p (s ∷ rest) = if p s then s ∷ filter p rest else filter p rest

-- The uploads part of Runner.runOnce: the rows are read once, then each is expired.
unfoldable pub expire_overdue : CleanPath → Bool → Bool → DiskFaults → ℕ → World → World
unfolding expire_all
expire_overdue root query fault disk now w =
    if query then w else expire_all root fault disk (filter (is_overdue now) w.db.uploads) w
