-- ===== src/Uploads/Completion.antt =====
-- uploadComplete: all of it happens, or nothing does.
use personal_space.Prelude.{
  ℕ, ◌+◌, ◌≤◌, ◌≡◌, ◌≢◌, refl, inl, inr, false, Text, Option, none, some, ok, err, List, [], ◌∷◌,
  find, update_where, any, arith, text_eq, text_eq_refl, Result-cases,
}
use personal_space.Database.Rows.{UserRow, UploadSession, user_of, file_clash, insert_file}
use personal_space.Storage.Path.{CleanPath}
use personal_space.Storage.Files.{no_faults, path_of, move}
use personal_space.Server.World.{World, Response, serve}
use personal_space.Uploads.Session.{Body, load_session, ensure_quota_allows_size}
use personal_space.Uploads.Init.{Keys}
use personal_space.Uploads.Complete.{
  CompleteFaults, is_terminal, is_completed, is_incomplete, file_of, complete_session, finalize,
  complete_tx, upload_complete,
}
use personal_space.Uploads.Undo.{finalize-undone}
use personal_space.Uploads.Progress.{row, find-update_session}

-- The user's row is what add_usage makes of it.
pub find-add_usage :
    (owner : ℕ) (f : UserRow → UserRow) (rows : List UserRow)
    → ((u : UserRow) → user_of owner (f u) ≡ user_of owner u)
    → (u : UserRow) → find (user_of owner) rows ≡ some u
    → find (user_of owner) (update_where (user_of owner) f rows) ≡ some (f u)
find-add_usage owner f [] keep u h = cc
find-add_usage owner f (r ∷ rows) keep u h =
    ground (arith, keep r, find-add_usage owner f rows keep u)

-- The usage after it has been raised is within the quota, if there is one.
abbrev pub WithinQuota : Option ℕ → ℕ → Type 0
WithinQuota none used = Unit {0}
WithinQuota (some quota) used = used ≤ quota

module _ (root : CleanPath) (keys : Keys) (faults : CompleteFaults)
    (now object file owner upload : ℕ) (w : World) (s : UploadSession) (temp final : Text)
    (found : row owner upload w ≡ some s) (same : s.id ≡ upload)
    (from_path : path_of root s.temp_key ≡ ok temp)
    (to_path : path_of root (keys.final owner now object) ≡ ok final)
    (apart : text_eq temp final ≡ false) where
  finalize-done :
      (u : UserRow)
      → find (user_of owner) w.db.users ≡ some u
      → (finalize root keys faults now object file owner s w).0 ≡ ok tt
      → ((finalize root keys faults now object file owner s w).1.db.files
          ≡ file_of now file owner (keys.final owner now object) s ∷ w.db.files)
        × (any (file_clash (file_of now file owner (keys.final owner now object) s)) w.db.files
            ≡ false)
        × (find (user_of owner) (finalize root keys faults now object file owner s w).1.db.users
            ≡ some (record u { used = u.used + s.uploaded_bytes }))
        × WithinQuota u.quota (u.used + s.uploaded_bytes)
        × (row owner upload (finalize root keys faults now object file owner s w).1
            ≡ some (complete_session file s))
        × ((finalize root keys faults now object file owner s w).1.disk final ≡ w.disk temp)
        × ((finalize root keys faults now object file owner s w).1.disk temp ≡ none)
  unfolding finalize insert_file move ensure_quota_allows_size
  finalize-done u user h =
      let facts =
        find-add_usage owner (λ r. record r { used = r.used + s.uploaded_bytes }) w.db.users
          (λ r. refl) u user in
      let saved =
        find-update_session owner upload (complete_session file) w.db.uploads (λ r. refl) s found in
      (
        ground (arith, from_path, to_path),
        ground (arith, from_path, to_path),
        ground (arith, from_path, to_path, facts),
        ground (arith, from_path, to_path, facts),
        ground (arith, from_path, to_path, same, saved),
        ground (arith, from_path, to_path, text_eq_refl final, text_eq_refl temp, apart),
        ground (arith, from_path, to_path, text_eq_refl final, text_eq_refl temp, apart),
      )

  finalize-code :
      (r : Response Body)
      → (finalize root keys faults now object file owner s w).0 ≡ err r
      → (r.code ≢ 200) × ((finalize root keys faults now object file owner s w).1.audit ≡ w.audit)
  unfolding finalize insert_file move ensure_quota_allows_size
  finalize-code r h = ground (arith, from_path, to_path)

  complete_tx-ok :
      (u : UserRow) (r : UploadSession)
      → find (user_of owner) w.db.users ≡ some u
      → is_completed s.status ≡ false
      → (complete_tx root keys faults now object file owner upload w).0 ≡ ok r
      → ((finalize root keys faults now object file owner s w).0 ≡ ok tt)
        × ((complete_tx root keys faults now object file owner upload w).1
            ≡ (finalize root keys faults now object file owner s w).1)
        × (r ≡ s)
        × (is_terminal s.status ≡ false)
        × (is_incomplete s ≡ false)
  unfolding complete_tx load_session
  complete_tx-ok u r user fresh h = ground (arith, found, fresh)

  complete_tx-code :
      (r : Response Body)
      → is_completed s.status ≡ false
      → (complete_tx root keys faults now object file owner upload w).0 ≡ err r
      → (r.code ≢ 200)
        × ((complete_tx root keys faults now object file owner upload w).1.audit ≡ w.audit)
  unfolding complete_tx load_session
  complete_tx-code r fresh h = ground (arith, found, fresh, finalize-code r)

  complete_tx-undone :
      (r : Response Body)
      → is_completed s.status ≡ false
      → faults.undo ≡ no_faults
      → w.disk final ≡ none
      → (complete_tx root keys faults now object file owner upload w).0 ≡ err r
      → (q : Text)
      → (complete_tx root keys faults now object file owner upload w).1.disk q ≡ w.disk q
  unfolding complete_tx load_session
  complete_tx-undone r fresh calm free h q =
      elim (Result-cases (finalize root keys faults now object file owner s w).0) [
        | inl (u, e) ↦ ground (arith, found, fresh)
        | inr (b, e) ↦ ground (
          arith,
          found,
          fresh,
          finalize-undone root keys faults now object file owner w s temp final from_path to_path
              apart b calm free e q,
        )
      ]

  -- An upload_complete that answers 200 on a session that was not completed has done all of it: the
  -- row of the new file, which clashes with no live name, has the size that was uploaded; the
  -- owner's usage has grown by that size and is within the quota; the session is completed and names
  -- the file; the file's object is the temporary one, which is gone; and the session was complete
  -- before and neither canceled, failed nor expired.
  pub upload_complete-200 :
      (u : UserRow)
      → find (user_of owner) w.db.users ≡ some u
      → is_completed s.status ≡ false
      → (serve
          (upload_complete root keys faults now object file (some owner) (some upload))
          w).0.code
        ≡ 200
      → (is_terminal s.status ≡ false)
        × (is_incomplete s ≡ false)
        × ((serve
              (upload_complete root keys faults now object file (some owner) (some upload))
              w).1.db.files
            ≡ file_of now file owner (keys.final owner now object) s ∷ w.db.files)
        × (any (file_clash (file_of now file owner (keys.final owner now object) s)) w.db.files
            ≡ false)
        × (find
              (user_of owner)
              (serve
                (upload_complete root keys faults now object file (some owner) (some upload))
                w).1.db.users
            ≡ some (record u { used = u.used + s.uploaded_bytes }))
        × WithinQuota u.quota (u.used + s.uploaded_bytes)
        × (row owner upload
              (serve
                (upload_complete root keys faults now object file (some owner) (some upload))
                w).1
            ≡ some (complete_session file s))
        × ((serve
                (upload_complete root keys faults now object file (some owner) (some upload))
                w).1.disk
              final
            ≡ w.disk temp)
        × ((serve
                (upload_complete root keys faults now object file (some owner) (some upload))
                w).1.disk
              temp
            ≡ none)
  unfolding upload_complete
  upload_complete-200 u user fresh h =
      elim (Result-cases (complete_tx root keys faults now object file owner upload w).0) [
        | inl (r, e) ↦
            let facts = complete_tx-ok u r user fresh e in
            ground (arith, facts, finalize-done u user facts.0)
        | inr (r, e) ↦ ground (arith, complete_tx-code r fresh e)
      ]

  -- An upload_complete that answers anything else on such a session has done none of it, whichever
  -- call failed, if the file can be moved back and nothing stood at its new place: the database, the
  -- audit log and every path of the storage are as before.
  pub upload_complete-refused :
      is_completed s.status ≡ false
      → faults.undo ≡ no_faults
      → w.disk final ≡ none
      → (serve
          (upload_complete root keys faults now object file (some owner) (some upload))
          w).0.code
        ≢ 200
      → ((serve
            (upload_complete root keys faults now object file (some owner) (some upload))
            w).1.db
          ≡ w.db)
        × ((serve
              (upload_complete root keys faults now object file (some owner) (some upload))
              w).1.audit
            ≡ w.audit)
        × ((q : Text)
            → (serve
                  (upload_complete root keys faults now object file (some owner) (some upload))
                  w).1.disk
                q
              ≡ w.disk q)
  unfolding upload_complete
  upload_complete-refused fresh calm free h =
      elim (Result-cases (complete_tx root keys faults now object file owner upload w).0) [
        | inl (r, e) ↦ ground arith
        | inr (r, e) ↦ (
          ground arith,
          ground (arith, complete_tx-code r fresh e),
          λ q. ground (arith, complete_tx-undone r fresh calm free e q),
        )
      ]
