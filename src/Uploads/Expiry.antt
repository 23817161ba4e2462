-- ===== src/Uploads/Expiry.antt =====
-- Sessions that are canceled or have expired: uploadCancel of backend/internal/http/uploads.go and the
-- clean-up in backend/internal/maintenance/cleanup.go.
use personal_space.Prelude.{
  ℕ, ◌≡◌, ◌≢◌, refl, Bool, true, false, ◌&&◌, ◌||◌, not, Text, none, some, ok, err, List, [], ◌∷◌,
  ◌==◌, find, any, update_where, arith, text_eq, text_eq_refl,
}
use personal_space.Database.Rows.{UploadSession, canceled, expired, session_of}
use personal_space.Storage.Path.{CleanPath}
use personal_space.Storage.Files.{DiskFaults, no_faults, path_of, delete}
use personal_space.Server.World.{World, serve}
use personal_space.Uploads.Session.{load_session}
use personal_space.Uploads.Chunk.{ChunkFaults, ChunkRequest, upload_chunk, chunk_tx}
use personal_space.Uploads.Init.{Keys}
use personal_space.Uploads.Complete.{CompleteFaults, upload_complete, complete_tx}
use personal_space.Uploads.Cancel.{
  CancelFaults, upload_cancel, is_overdue, expire, expire_all, filter, expire_overdue,
}
use personal_space.Uploads.Progress.{row}

find-cancel :
    (user upload : ℕ) (rows : List UploadSession) (s : UploadSession)
    → find (session_of upload user) rows ≡ some s
    → find
        (session_of upload user)
        (update_where (session_of upload user) (λ r. record r { status = canceled }) rows)
      ≡ some (record s { status = canceled })
find-cancel user upload [] s h = cc
find-cancel user upload (r ∷ rows) s h = ground (arith, find-cancel user upload rows s)

module _ (root : CleanPath) (faults : CancelFaults) (user upload : ℕ) (w : World)
    (s : UploadSession) (found : row user upload w ≡ some s) where
  -- An upload_cancel that answers 200 leaves the session canceled, whichever status it had, and with
  -- its other fields as they were.
  pub upload_cancel-200 :
      (serve (upload_cancel root faults (some user) (some upload)) w).0.code ≡ 200
      → row user upload (serve (upload_cancel root faults (some user) (some upload)) w).1
        ≡ some (record s { status = canceled })
  unfolding upload_cancel load_session
  upload_cancel-200 h = ground (arith, find-cancel user upload w.db.uploads s found)

-- On a session that is canceled no chunk and no completion is answered 200, and both leave the
-- database and the storage as they are.
pub canceled_upload :
    (root : CleanPath) (keys : Keys) (chunk_faults : ChunkFaults) (faults : CompleteFaults)
    (now object file user upload : ℕ) (req : ChunkRequest) (w : World) (s : UploadSession)
    → row user upload w ≡ some s
    → s.status ≡ canceled
    → req.upload ≡ some upload
    → ((serve (upload_chunk root chunk_faults (some user) req) w).0.code ≢ 200)
      × ((serve (upload_chunk root chunk_faults (some user) req) w).1 ≡ w)
      × ((serve
            (upload_complete root keys faults now object file (some user) (some upload))
            w).0.code
          ≢ 200)
      × ((serve (upload_complete root keys faults now object file (some user) (some upload)) w).1
          ≡ w)
unfolding upload_chunk chunk_tx upload_complete complete_tx load_session
canceled_upload root keys chunk_faults faults now object file user upload req w s found status
      asked =
    (ground arith, ground arith, ground arith, ground arith)

same_session : ℕ → UploadSession → Bool
same_session upload s = s.id == upload

-- Every overdue row is among the sessions.
covered : ℕ → List UploadSession → List UploadSession → Bool
covered now sessions [] = true
covered now sessions (r ∷ rows) =
    (not (is_overdue now r) || any (λ t. t.id == r.id) sessions) && covered now sessions rows

covered-cons :
    (now : ℕ) (s : UploadSession) (sessions rows : List UploadSession)
    → covered now sessions rows ≡ true
    → covered now (s ∷ sessions) rows ≡ true
unfolding covered
covered-cons now s sessions [] h = refl
covered-cons now s sessions (r ∷ rows) h = ground (arith, covered-cons now s sessions rows)

covered-filter :
    (now : ℕ) (rows : List UploadSession) → covered now (filter (is_overdue now) rows) rows ≡ true
unfolding covered
covered-filter now [] = refl
covered-filter now (r ∷ rows) =
    ground (arith, covered-filter now rows, covered-cons now r (filter (is_overdue now) rows) rows)

covered-update :
    (now : ℕ) (s : UploadSession) (sessions rows : List UploadSession)
    → covered now (s ∷ sessions) rows ≡ true
    → covered now sessions
        (update_where (λ r. r.id == s.id) (λ r. record r { status = expired }) rows)
      ≡ true
unfolding covered
covered-update now s sessions [] h = refl
covered-update now s sessions (r ∷ rows) h = ground (arith, covered-update now s sessions rows)

covered-nil :
    (now : ℕ) (rows : List UploadSession)
    → covered now [] rows ≡ true
    → any (is_overdue now) rows ≡ false
unfolding covered
covered-nil now [] h = refl
covered-nil now (r ∷ rows) h = ground (arith, covered-nil now rows)

module _ (root : CleanPath) (disk : DiskFaults) where
  none_left :
      (now : ℕ) (sessions : List UploadSession) (w : World)
      → covered now sessions w.db.uploads ≡ true
      → any (is_overdue now) (expire_all root false disk sessions w).db.uploads ≡ false
  unfolding expire_all expire
  none_left now [] w h = covered-nil now w.db.uploads h
  none_left now (s ∷ rest) w h =
      none_left now rest (expire root false disk s w) (covered-update now s rest w.db.uploads h)

  -- After a round of the clean-up whose queries do not fail no session is overdue, whichever of its
  -- files could not be deleted.
  pub expire_overdue-none_left :
      (now : ℕ) (w : World)
      → any (is_overdue now) (expire_overdue root false false disk now w).db.uploads ≡ false
  unfolding expire_overdue
  expire_overdue-none_left now w =
      none_left now (filter (is_overdue now) w.db.uploads) w (covered-filter now w.db.uploads)

find-other :
    (user upload id : ℕ) (f : UploadSession → UploadSession) (rows : List UploadSession)
    → ((r : UploadSession) → session_of upload user (f r) ≡ session_of upload user r)
    → (id == upload) ≡ false
    → find (session_of upload user) (update_where (λ r. r.id == id) f rows)
      ≡ find (session_of upload user) rows
find-other user upload id f [] keep h = refl
find-other user upload id f (r ∷ rows) keep h =
    ground (arith, keep r, find-other user upload id f rows keep h)

any-filter :
    (now upload : ℕ) (rows : List UploadSession)
    → any (λ r. is_overdue now r && r.id == upload) rows ≡ false
    → any (λ r. r.id == upload) (filter (is_overdue now) rows) ≡ false
any-filter now upload [] h = refl
any-filter now upload (r ∷ rows) h = ground (arith, any-filter now upload rows)

module _ (root : CleanPath) (fault : Bool) (disk : DiskFaults) (user upload : ℕ) where
  row-expire_all :
      (sessions : List UploadSession) (w : World)
      → any (λ r. r.id == upload) sessions ≡ false
      → row user upload (expire_all root fault disk sessions w) ≡ row user upload w
  unfolding expire_all expire
  row-expire_all [] w h = refl
  row-expire_all (s ∷ rest) w h = ground (
    arith,
    row-expire_all rest (expire root fault disk s w),
    find-other user upload s.id (λ r. record r { status = expired }) w.db.uploads (λ r. refl),
  )

  -- The clean-up keeps the row of a session when no overdue session has its id, whatever fails.
  pub expire_overdue-keeps :
      (query : Bool) (now : ℕ) (w : World)
      → any (λ r. is_overdue now r && r.id == upload) w.db.uploads ≡ false
      → row user upload (expire_overdue root query fault disk now w) ≡ row user upload w
  unfolding expire_overdue
  expire_overdue-keeps true now w h = refl
  expire_overdue-keeps false now w h =
      row-expire_all (filter (is_overdue now) w.db.uploads) w (any-filter now upload w.db.uploads h)

-- Whether a session's temporary file stands at `path`.
abbrev pub stands_at : CleanPath → Text → UploadSession → Bool
stands_at root path s = elim (path_of root s.temp_key) [ ok p ↦ text_eq path p | err e ↦ false ]

any-filter_mem :
    (now user upload : ℕ) (p : UploadSession → Bool) (rows : List UploadSession) (s : UploadSession)
    → find (session_of upload user) rows ≡ some s
    → is_overdue now s ≡ true
    → p s ≡ true
    → any p (filter (is_overdue now) rows) ≡ true
any-filter_mem now user upload p [] s found overdue h = cc
any-filter_mem now user upload p (r ∷ rows) s found overdue h =
    ground (arith, any-filter_mem now user upload p rows s)

module _ (root : CleanPath) (fault : Bool) (path : Text) where
  absent_stays :
      (disk : DiskFaults) (sessions : List UploadSession) (w : World)
      → w.disk path ≡ none
      → (expire_all root fault disk sessions w).disk path ≡ none
  unfolding expire_all expire delete
  absent_stays disk [] w h = h
  absent_stays disk (s ∷ rest) w h =
      ground (arith, absent_stays disk rest (expire root fault disk s w))

  deleted :
      (sessions : List UploadSession) (w : World)
      → any (stands_at root path) sessions ≡ true
      → (expire_all root fault no_faults sessions w).disk path ≡ none
  unfolding expire_all expire delete
  deleted [] w h = cc
  deleted (s ∷ rest) w h = ground (
    arith,
    deleted rest (expire root fault no_faults s w),
    absent_stays no_faults rest (expire root fault no_faults s w),
  )

  -- The clean-up deletes the temporary file of every overdue session when the storage does not fail.
  pub expire_overdue-files :
      (now user upload : ℕ) (w : World) (s : UploadSession)
      → row user upload w ≡ some s
      → is_overdue now s ≡ true
      → path_of root s.temp_key ≡ ok path
      → (expire_overdue root false fault no_faults now w).disk path ≡ none
  unfolding expire_overdue
  expire_overdue-files now user upload w s found overdue named =
      deleted (filter (is_overdue now) w.db.uploads) w (
        any-filter_mem now user upload (stands_at root path) w.db.uploads s found overdue
          (ground (arith, named, text_eq_refl path)))
