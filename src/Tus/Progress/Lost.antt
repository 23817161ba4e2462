-- ===== src/Tus/Progress/Lost.antt =====
-- tusPatch of backend/internal/http/tus.go when its Commit fails.
use personal_space.Prelude.{
  ℕ, ◌+◌, ◌-◌, ◌≡◌, ◌≢◌, refl, inl, inr, true, false, some, ok, err, arith, Result-cases,
  Option-cases, add64,
}
use personal_space.Database.Rows.{UploadSession}
use personal_space.Storage.Path.{CleanPath}
use personal_space.Storage.Files.{append_at}
use personal_space.Uploads.Session.{limit_reader, update_session}
use personal_space.Server.World.{World, Response, serve}
use personal_space.Uploads.Init.{Keys}
use personal_space.Uploads.Complete.{is_completed}
use personal_space.Uploads.Progress.{row}
use personal_space.Tus.Reply.{Reply, fail, load_or}
use personal_space.Tus.Patch.{
  PatchFaults, PatchRequest, finalize_tus_session_tx, patch_tx, offset_of, moved_on, tus_patch,
}

-- The same calls, but for a Commit that fails.
abbrev pub uncommitted : PatchFaults → PatchFaults
uncommitted faults = record faults { complete = record faults.complete { commit = true } }

module _ (root : CleanPath) (keys : Keys) (faults : PatchFaults) (now object file : ℕ) where
  finalize-uncommitted :
      (s : UploadSession) (w : World)
      → finalize_tus_session_tx root keys (uncommitted faults) now object file s w
        ≡ finalize_tus_session_tx root keys faults now object file s w
  unfolding finalize_tus_session_tx
  finalize-uncommitted s w = refl

  patch_tx-uncommitted :
      (user upload offset : ℕ) (req : PatchRequest) (w : World) (s : UploadSession)
      (r : Response Reply)
      → row user upload w ≡ some s
      → is_completed s.status ≡ false
      → (patch_tx root keys faults now object file user upload offset req.body w).0 ≡ ok r
      → ((patch_tx root keys (uncommitted faults) now object file user upload offset req.body w).0
          ≡ err (fail 500 "could not commit tus upload chunk"))
        × ((patch_tx root keys (uncommitted faults) now object file user upload offset req.body w).1
            ≡ (patch_tx root keys faults now object file user upload offset req.body w).1)
  unfolding patch_tx load_or finalize_tus_session_tx
  patch_tx-uncommitted user upload offset req w s r found unfinished h =
      ground (arith, found, unfinished)

  finalize-refused :
      (s : UploadSession) (w : World) (r : Response Reply)
      → (finalize_tus_session_tx root keys faults now object file s w).0 ≡ err r
      → r.code ≢ 204
  unfolding finalize_tus_session_tx
  finalize-refused s w r h = ground arith

  patch_tx-refused :
      (user upload offset : ℕ) (req : PatchRequest) (w : World) (s : UploadSession)
      (r : Response Reply)
      → row user upload w ≡ some s
      → is_completed s.status ≡ false
      → (patch_tx root keys faults now object file user upload offset req.body w).0 ≡ err r
      → r.code ≢ 204
  unfolding patch_tx load_or
  patch_tx-refused user upload offset req w s r found unfinished h =
      elim (Option-cases s.total_size) [
        | inl undeclared ↦ ground (arith, found, unfinished)
        | inr (total, declared) ↦
            let appended =
              append_at root faults.append s.temp_key s.uploaded_bytes
                (limit_reader (add64 (total - s.uploaded_bytes) 1) req.body) w.disk in
            elim (Result-cases appended.0) [
              | inr (e, failed) ↦ ground (arith, found, unfinished, declared, failed)
              | inl (n, written) ↦ ground (
                arith,
                found,
                unfinished,
                declared,
                written,
                finalize-refused (record s { uploaded_bytes = s.uploaded_bytes + n })
                    (update_session upload (moved_on (s.uploaded_bytes + n))
                      (record w { disk = appended.1 }))
                    r,
              )
            ]
      ]

  -- Where a tus_patch on a session that was not completed would answer 204, but its Commit fails, it
  -- answers 500 and leaves the database as before, while the storage and the audit log are left as
  -- after the success: a file that was moved to its final place stays there, without a row.
  pub tus_patch-uncommitted :
      (user upload : ℕ) (req : PatchRequest) (w : World) (s : UploadSession)
      → row user upload w ≡ some s
      → req.upload ≡ some upload
      → is_completed s.status ≡ false
      → (serve (tus_patch root keys faults now object file (some user) req) w).0.code ≡ 204
      → ((serve (tus_patch root keys (uncommitted faults) now object file (some user) req) w).0.code
          ≡ 500)
        × ((serve (tus_patch root keys (uncommitted faults) now object file (some user) req) w).1.db
            ≡ w.db)
        × ((serve
              (tus_patch root keys (uncommitted faults) now object file (some user) req)
              w).1.disk
            ≡ (serve (tus_patch root keys faults now object file (some user) req) w).1.disk)
        × ((serve
              (tus_patch root keys (uncommitted faults) now object file (some user) req)
              w).1.audit
            ≡ (serve (tus_patch root keys faults now object file (some user) req) w).1.audit)
  unfolding tus_patch
  tus_patch-uncommitted user upload req w s found asked unfinished h =
      elim (Option-cases (offset_of req.offset)) [
        | inl none_given ↦ absurd (ground arith)
        | inr (offset, given) ↦
            elim (Result-cases
              (patch_tx root keys faults now object file user upload offset req.body w).0) [
                | inl (r, e) ↦ ground (
                  arith,
                  asked,
                  given,
                  patch_tx-uncommitted user upload offset req w s r found unfinished e,
                )
                | inr (r, e) ↦ absurd (
                    ground (
                      arith,
                      asked,
                      given,
                      patch_tx-refused user upload offset req w s r found unfinished e,
                    ))
              ]
      ]
