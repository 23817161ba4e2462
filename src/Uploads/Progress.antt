-- ===== src/Uploads/Progress.antt =====
-- uploadChunk, branch by branch: what a chunk does to the session's row and to its temporary file.
use personal_space.Prelude.{
  ℕ, ◌+◌, ◌≡◌, ◌≢◌, refl, ◌⊎◌, inl, inr, false, Text, Option, some, ok, err, List, [], ◌∷◌, ◌++◌,
  ◌==◌, length, find, update_where, arith, text_eq_refl, Result-cases,
}
use personal_space.Database.Rows.{UploadSession, uploading, session_of}
use personal_space.Storage.Path.{CleanPath}
use personal_space.Storage.Files.{Bytes, path_of, append_at, content_of}
use personal_space.Settings.Upload.{UploadSettings, get_upload_settings}
use personal_space.Server.World.{World, Response, respond, serve}
use personal_space.Uploads.Session.{
  Body, fail, offset_mismatch, progress, load_session, bound_of, over_max, over_total,
}
use personal_space.Uploads.Chunk.{
  ChunkFaults, ChunkRequest, check_offset, admitted, chunk_reader, check_bounds, advance, chunk_tx,
  upload_chunk,
}

-- The row that the handlers read.
abbrev pub row : ℕ → ℕ → World → Option UploadSession
row user upload w = find (session_of upload user) w.db.uploads

-- What the temporary file holds.
abbrev pub held : Text → World → Bytes
held path w = content_of (w.disk path)

-- An update of one session is what its owner reads back.
pub find-update_session :
    (user upload : ℕ) (f : UploadSession → UploadSession) (rows : List UploadSession)
    → ((s : UploadSession) → session_of upload user (f s) ≡ session_of upload user s)
    → (s : UploadSession) → find (session_of upload user) rows ≡ some s
    → find (session_of upload user) (update_where (λ r. r.id == upload) f rows) ≡ some (f s)
find-update_session user upload f [] keep s h = cc
find-update_session user upload f (r ∷ rows) keep s h =
    ground (arith, keep r, find-update_session user upload f rows keep s)

check_offset-cases :
    (header : Text) (uploaded : ℕ)
    → (check_offset header uploaded ≡ ok tt)
      ⊎ (check_offset header uploaded ≡ err (respond 409 (offset_mismatch uploaded)))
      ⊎ (check_offset header uploaded ≡ err (fail 400 "invalid Upload-Offset"))
unfolding check_offset
check_offset-cases header uploaded = ground arith

-- The bytes that uploadChunk reads from the request, and the offset after them.
abbrev pub taken : UploadSettings → UploadSession → ChunkRequest → Bytes
taken cfg s req = (admitted (bound_of cfg) s.uploaded_bytes req.body).bytes

abbrev pub offset_after : UploadSettings → UploadSession → ChunkRequest → ℕ
offset_after cfg s req = s.uploaded_bytes + length (taken cfg s req)

module _ (root : CleanPath) (faults : ChunkFaults) (cfg : UploadSettings) (user upload : ℕ)
    (req : ChunkRequest) (w : World) (s : UploadSession) (path : Text)
    (found : row user upload w ≡ some s) (named : path_of root s.temp_key ≡ ok path) where
  -- What a block that gets through its Commit has done.
  chunk_tx-disk :
      (r : Response Body)
      → (chunk_tx root faults cfg user upload req w).0 ≡ ok r
      → (r ≡ respond 200 (progress upload (offset_after cfg s req) s.total_size uploading))
        × ((chunk_tx root faults cfg user upload req w).1.disk path
            ≡ some (held path w ++ taken cfg s req))
        × (length (held path w) ≡ s.uploaded_bytes)
        × (over_max (bound_of cfg) (offset_after cfg s req) ≡ false)
        × (over_total s.total_size (offset_after cfg s req) ≡ false)
  unfolding chunk_tx chunk_reader check_bounds load_session append_at
  chunk_tx-disk r h = ground (arith, found, named, text_eq_refl path)

  chunk_tx-row :
      (r : Response Body)
      → (chunk_tx root faults cfg user upload req w).0 ≡ ok r
      → row user upload (chunk_tx root faults cfg user upload req w).1
        ≡ some (advance (offset_after cfg s req) s)
  unfolding chunk_tx chunk_reader check_bounds load_session append_at
  chunk_tx-row r h = ground (
    arith,
    found,
    named,
    text_eq_refl path,
    find-update_session user upload (advance (offset_after cfg s req)) w.db.uploads (λ t. refl) s
        found,
  )

  -- A block that does not has answered otherwise, and added to the temporary file at most what it
  -- read.
  chunk_tx-code :
      (r : Response Body) → (chunk_tx root faults cfg user upload req w).0 ≡ err r → r.code ≢ 200
  unfolding chunk_tx chunk_reader check_bounds load_session append_at
  chunk_tx-code r h = ground (arith, found, named, check_offset-cases req.offset s.uploaded_bytes)

  chunk_tx-held :
      (r : Response Body)
      → (chunk_tx root faults cfg user upload req w).0 ≡ err r
      → (held path (chunk_tx root faults cfg user upload req w).1 ≡ held path w)
        ⊎ ((held path (chunk_tx root faults cfg user upload req w).1
              ≡ held path w ++ taken cfg s req)
            × (length (held path w) ≡ s.uploaded_bytes))
  unfolding chunk_tx chunk_reader check_bounds load_session append_at
  chunk_tx-held r h = ground (arith, found, named, text_eq_refl path)

module _ (root : CleanPath) (faults : ChunkFaults) (cfg : UploadSettings) (user upload : ℕ)
    (req : ChunkRequest) (w : World) (s : UploadSession) (path : Text)
    (found : row user upload w ≡ some s) (named : path_of root s.temp_key ≡ ok path)
    (policy : get_upload_settings faults.settings w.db.settings ≡ some cfg)
    (asked : req.upload ≡ some upload) where
  -- A chunk that is answered 200 was appended whole, as far as it was read, to a file that was as
  -- long as the session said; the session's new offset is the file's new length, it passes neither
  -- the policy's bound nor the declared size, and it is the offset of the answer.
  pub upload_chunk-200 :
      (serve (upload_chunk root faults (some user) req) w).0.code ≡ 200
      → ((serve (upload_chunk root faults (some user) req) w).0
          ≡ respond 200 (progress upload (offset_after cfg s req) s.total_size uploading))
        × ((serve (upload_chunk root faults (some user) req) w).1.disk path
            ≡ some (held path w ++ taken cfg s req))
        × (length (held path w) ≡ s.uploaded_bytes)
        × (row user upload (serve (upload_chunk root faults (some user) req) w).1
            ≡ some (advance (offset_after cfg s req) s))
        × (over_max (bound_of cfg) (offset_after cfg s req) ≡ false)
        × (over_total s.total_size (offset_after cfg s req) ≡ false)
  unfolding upload_chunk
  upload_chunk-200 h = elim (Result-cases (chunk_tx root faults cfg user upload req w).0) [
    | inl (r, e) ↦ ground (
      arith,
      policy,
      asked,
      chunk_tx-disk root faults cfg user upload req w s path found named r e,
      chunk_tx-row root faults cfg user upload req w s path found named r e,
    )
    | inr (r, e) ↦ ground (
      arith,
      policy,
      asked,
      chunk_tx-code root faults cfg user upload req w s path found named r e,
    )
  ]

  -- A chunk that is not answered 200 leaves the database as it was, whatever failed, and also where
  -- the code sets the status 'failed'; the temporary file is as before, or was as long as the
  -- session said and now holds the bytes that were read.
  pub upload_chunk-refused :
      (serve (upload_chunk root faults (some user) req) w).0.code ≢ 200
      → ((serve (upload_chunk root faults (some user) req) w).1.db ≡ w.db)
        × ((held path (serve (upload_chunk root faults (some user) req) w).1 ≡ held path w)
            ⊎ ((held path (serve (upload_chunk root faults (some user) req) w).1
                  ≡ held path w ++ taken cfg s req)
                × (length (held path w) ≡ s.uploaded_bytes)))
  unfolding upload_chunk
  upload_chunk-refused h = elim (Result-cases (chunk_tx root faults cfg user upload req w).0) [
    | inl (r, e) ↦ ground (
      arith,
      policy,
      asked,
      (chunk_tx-disk root faults cfg user upload req w s path found named r e).0,
    )
    | inr (r, e) ↦ ground (
      arith,
      policy,
      asked,
      chunk_tx-held root faults cfg user upload req w s path found named r e,
    )
  ]
