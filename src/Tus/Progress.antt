-- ===== src/Tus/Progress.antt =====
-- tusPatch of backend/internal/http/tus.go: what an accepted and a refused chunk do.
pub mod Lost
use personal_space.Prelude.{
  ℕ, ◌+◌, ◌-◌, ◌≤◌, ◌<◌, ◌≡◌, ◌≢◌, refl, sym, ◌⊎◌, inl, inr, Bool, true, false, not, Text, Option,
  none, some, Result, ok, err, List, [], ◌∷◌, ◌++◌, ltb, ◌==◌, length, find, arith, text_eq,
  text_eq_refl, Result-cases, Bool-cases, Option-cases, add64,
}
use personal_space.Database.Rows.{Database, UserRow, UploadSession, user_of}
use personal_space.Storage.Path.{CleanPath, StorageError}
use personal_space.Storage.Files.{Bytes, Stream, path_of, append_at}
use personal_space.Server.World.{World, Response, serve}
use personal_space.Uploads.Session.{limit_reader, update_session}
use personal_space.Uploads.Init.{Keys}
use personal_space.Uploads.Complete.{is_completed, is_terminal}
use personal_space.Uploads.Progress.{row, held, find-update_session}
use personal_space.Tus.Reply.{Reply, at_offset, load_or}
use personal_space.Tus.Patch.{
  PatchFaults, PatchRequest, moved_on, finalize_tus_session_tx, patch_tx, offset_of, tus_patch,
}
use personal_space.Tus.Finalize.{IsFinalized, finalize_tus-IsFinalized, finalize_tus-code}

-- The bytes that tusPatch reads: at most one more than the declared size leaves room for.
abbrev pub taken : ℕ → UploadSession → Stream → Bytes
taken total s body = (limit_reader (add64 (total - s.uploaded_bytes) 1) body).bytes

abbrev pub offset_after : ℕ → UploadSession → Stream → ℕ
offset_after total s body = s.uploaded_bytes + length (taken total s body)

module _ (root : CleanPath) (keys : Keys) (faults : PatchFaults) (now object file : ℕ)
    (body : Stream) (w : World) (s : UploadSession) (u : UserRow) (total : ℕ) (temp final : Text)
    (found : row s.owner s.id w ≡ some s) (user : find (user_of s.owner) w.db.users ≡ some u)
    (declared : s.total_size ≡ some total) (unfinished : is_completed s.status ≡ false)
    (from_path : path_of root s.temp_key ≡ ok temp)
    (to_path : path_of root (keys.final s.owner now object) ≡ ok final)
    (apart : text_eq temp final ≡ false) where
  -- The state when the chunk has been written and the row advanced.
  advanced : World
  advanced = update_session s.id (moved_on (offset_after total s body)) (record w {
    disk =
        (append_at root faults.append s.temp_key s.uploaded_bytes
          (limit_reader (add64 (total - s.uploaded_bytes) 1) body) w.disk).1;
  })

  -- The session that is finalized.
  full : UploadSession
  full = record s { uploaded_bytes = offset_after total s body }

  patch_tx-open :
      (offset : ℕ) (r : Response Reply)
      → (offset_after total s body == total) ≡ false
      → (patch_tx root keys faults now object file s.owner s.id offset body w).0 ≡ ok r
      → (r ≡ at_offset 204 (offset_after total s body))
        × (offset ≡ s.uploaded_bytes)
        × (length (held temp w) ≡ s.uploaded_bytes)
        × (offset_after total s body < total)
        × (row s.owner s.id (patch_tx root keys faults now object file s.owner s.id offset body w).1
            ≡ some (moved_on (offset_after total s body) s))
        × ((patch_tx root keys faults now object file s.owner s.id offset body w).1.disk temp
            ≡ some (held temp w ++ taken total s body))
  unfolding patch_tx load_or append_at
  patch_tx-open offset r short h =
      let saved =
        find-update_session s.owner s.id (moved_on (offset_after total s body)) w.db.uploads
          (λ t. refl) s found in
      ground (arith, found, declared, unfinished, from_path, saved, text_eq_refl temp)

  patch_tx-full :
      (offset : ℕ) (r : Response Reply)
      → (offset_after total s body == total) ≡ true
      → (patch_tx root keys faults now object file s.owner s.id offset body w).0 ≡ ok r
      → (r ≡ at_offset 204 total)
        × (offset ≡ s.uploaded_bytes)
        × (length (held temp w) ≡ s.uploaded_bytes)
        × ((finalize_tus_session_tx root keys faults now object file full advanced).0 ≡ ok tt)
        × ((patch_tx root keys faults now object file s.owner s.id offset body w).1
            ≡ (finalize_tus_session_tx root keys faults now object file full advanced).1)
        × (advanced.disk temp ≡ some (held temp w ++ taken total s body))
  unfolding patch_tx load_or append_at advanced full
  patch_tx-full offset r short h =
      ground (arith, found, declared, unfinished, from_path, text_eq_refl temp)

  row-advanced : row s.owner s.id advanced ≡ some (moved_on (offset_after total s body) s)
  unfolding advanced
  row-advanced =
      find-update_session s.owner s.id (moved_on (offset_after total s body)) w.db.uploads
        (λ t. refl) s found

  patch_tx-err :
      (offset : ℕ) (r : Response Reply)
      → (patch_tx root keys faults now object file s.owner s.id offset body w).0 ≡ err r
      → r.code ≢ 204
  unfolding patch_tx load_or append_at advanced full
  patch_tx-err offset r h = ground (
    arith,
    found,
    declared,
    unfinished,
    from_path,
    finalize_tus-code root keys faults now object file advanced full
        (moved_on (offset_after total s body) s) temp final row-advanced from_path to_path apart r,
  )

  patch_tx-204 :
      (offset : ℕ) (r : Response Reply)
      → (patch_tx root keys faults now object file s.owner s.id offset body w).0 ≡ ok r
      → r.code ≡ 204
  unfolding patch_tx load_or append_at
  patch_tx-204 offset r h = ground (arith, found, declared, unfinished, from_path)

  patch_tx-IsFinalized :
      (offset : ℕ) (r : Response Reply)
      → (offset_after total s body == total) ≡ true
      → (patch_tx root keys faults now object file s.owner s.id offset body w).0 ≡ ok r
      → IsFinalized keys now object file w.db.files
          (some (held temp w ++ taken total s body))
          (patch_tx root keys faults now object file s.owner s.id offset body w).1
          full
          (moved_on (offset_after total s body) s)
          u
          temp
          final
  unfolding full advanced
  patch_tx-IsFinalized offset r short h =
      let facts = patch_tx-full offset r short h in
      let whole =
        finalize_tus-IsFinalized root keys faults now object file advanced full
          (moved_on (offset_after total s body) s) temp final row-advanced from_path to_path apart u
          user facts.3 in
      rw (facts.4, sym facts.5) whole

module _ (root : CleanPath) (keys : Keys) (faults : PatchFaults) (now object file : ℕ)
    (req : PatchRequest) (w : World) (s : UploadSession) (u : UserRow) (total : ℕ)
    (temp final : Text) (found : row s.owner s.id w ≡ some s)
    (user : find (user_of s.owner) w.db.users ≡ some u) (declared : s.total_size ≡ some total)
    (unfinished : is_completed s.status ≡ false) (from_path : path_of root s.temp_key ≡ ok temp)
    (to_path : path_of root (keys.final s.owner now object) ≡ ok final)
    (apart : text_eq temp final ≡ false) (asked : req.upload ≡ some s.id) where
  -- A tus_patch that answers 204 on a session that was not completed was at the session's offset,
  -- which was the length of the temporary file, and answers the offset after its chunk. Either that
  -- is short of the declared size, the row has it, and the temporary file holds the chunk as well;
  -- or it is the declared size, and the upload is finalized with all that was sent: file row, usage
  -- within the quota, completed session, object in its final place.
  pub tus_patch-204 :
      (serve (tus_patch root keys faults now object file (some s.owner) req) w).0.code ≡ 204
      → (offset_of req.offset ≡ some s.uploaded_bytes)
        × (length (held temp w) ≡ s.uploaded_bytes)
        × ((serve (tus_patch root keys faults now object file (some s.owner) req) w).0
            ≡ at_offset 204 (offset_after total s req.body))
        × (((offset_after total s req.body < total)
              × (row s.owner s.id
                    (serve (tus_patch root keys faults now object file (some s.owner) req) w).1
                  ≡ some (moved_on (offset_after total s req.body) s))
              × ((serve (tus_patch root keys faults now object file (some s.owner) req) w).1.disk
                    temp
                  ≡ some (held temp w ++ taken total s req.body)))
            ⊎ ((offset_after total s req.body ≡ total)
                × IsFinalized keys now object file w.db.files
                    (some (held temp w ++ taken total s req.body))
                    (serve (tus_patch root keys faults now object file (some s.owner) req) w).1
                    (record s { uploaded_bytes = offset_after total s req.body })
                    (moved_on (offset_after total s req.body) s)
                    u
                    temp
                    final))
  unfolding tus_patch full
  tus_patch-204 h = elim (Option-cases (offset_of req.offset)) [
    | inl none_given ↦ absurd (ground arith)
    | inr (offset, given) ↦
        elim (Result-cases
          (patch_tx root keys faults now object file s.owner s.id offset req.body w).0) [
            | inr (r, e) ↦ absurd (
                ground (
                  arith,
                  asked,
                  given,
                  patch_tx-err root keys faults now object file req.body w s u total temp final
                      found user declared unfinished from_path to_path apart offset r e,
                ))
            | inl (r, e) ↦ elim (Bool-cases (offset_after total s req.body == total)) [
              | inr short ↦ ground (
                arith,
                asked,
                given,
                patch_tx-open root keys faults now object file req.body w s u total temp final found
                    user declared unfinished from_path to_path apart offset r short e,
              )
              | inl whole ↦
                  let facts =
                    patch_tx-full root keys faults now object file req.body w s u total temp final
                      found user declared unfinished from_path to_path apart offset r whole e in
                  let kept : (serve (tus_patch root keys faults now object file (some s.owner) req)
                        w).1
                      ≡ (patch_tx root keys faults now object file s.owner s.id offset req.body
                          w).1 =
                    ground (arith, asked, given) in
                  (
                    ground (arith, given, facts.1),
                    facts.2,
                    ground (arith, asked, given, facts.0),
                    inr (
                      ground arith,
                      rw kept (
                          patch_tx-IsFinalized root keys faults now object file req.body w s u total
                            temp final found user declared unfinished from_path to_path apart offset
                            r whole e),
                    ),
                  )
            ]
          ]
  ]

  -- A tus_patch that answers anything else leaves the database as it was.
  pub tus_patch-refused :
      (serve (tus_patch root keys faults now object file (some s.owner) req) w).0.code ≢ 204
      → (serve (tus_patch root keys faults now object file (some s.owner) req) w).1.db ≡ w.db
  unfolding tus_patch
  tus_patch-refused h = elim (Option-cases (offset_of req.offset)) [
    | inl none_given ↦ ground arith
    | inr (offset, given) ↦
        elim (Result-cases
          (patch_tx root keys faults now object file s.owner s.id offset req.body w).0) [
            | inl (r, e) ↦ ground (
              arith,
              asked,
              given,
              patch_tx-204 root keys faults now object file req.body w s u total temp final found
                  user declared unfinished from_path to_path apart offset r,
            )
            | inr (r, e) ↦ ground (arith, asked, given)
          ]
  ]
