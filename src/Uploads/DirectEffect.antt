-- ===== src/Uploads/DirectEffect.antt =====
-- What a part of a form that uploadFiles of backend/internal/http/files.go handles leaves behind.
use personal_space.Prelude.{
  ℕ, ◌+◌, ◌≡◌, refl, ◌⊎◌, inl, inr, true, false, Text, Option, none, is_empty, Result, ok, err,
  List, [], ◌∷◌, ◌++◌, length, ℤ, Result-cases, Option-cases, ◌≢◌, arith,
}
use personal_space.Database.Rows.{FileRow, insert_file}
use personal_space.Storage.Path.{CleanPath, StorageError}
use personal_space.Storage.Files.{Bytes, DiskFaults, Files, put_stream, move}
use personal_space.Server.World.{World}
use personal_space.Uploads.Init.{Keys}
use personal_space.Uploads.Session.{add_usage, ensure_quota_allows_size}
use personal_space.Uploads.Direct.{
  Part, Sniffed, PartFaults, PartEnd, Uploaded, uploaded, pump, one_less, taken,
  copy_part_to_storage, persist_tx, persist, PartRun, row_of, upload_part, store_part, record_part,
}

-- The bytes of the pieces.
abbrev pub joined : List Bytes → Bytes
joined [] = []
joined (c ∷ cs) = c ++ joined cs

-- Without an error the goroutine has sent all of the part.
pump-joined :
    (max : Option ℤ) (broken_by : Option Text) (reads : Option ℕ) (size : ℕ) (cs : List Bytes)
    → (pump max broken_by reads size cs).error ≡ none
    → (pump max broken_by reads size cs).sent ≡ joined cs
unfolding pump is_empty
pump-joined max broken_by reads size [] h = refl
pump-joined max broken_by reads size ([] ∷ cs) h = pump-joined max broken_by reads size cs h
pump-joined max broken_by reads size ((b ∷ c) ∷ cs) h =
    ground (arith, pump-joined max broken_by (one_less reads) (size + length (b ∷ c)) cs)

persist-ok :
    (faults : PartFaults) (owner : ℕ) (row : FileRow) (w : World)
    → (persist faults owner row w).0 ≡ ok tt
    → ((persist faults owner row w).1
        ≡ record w { db = add_usage owner row.size (record w.db { files = row ∷ w.db.files }) })
      × (ensure_quota_allows_size faults.check owner (persist faults owner row w).1.db ≡ true)
unfolding persist persist_tx insert_file
persist-ok faults owner row w h = ground arith

persist-err :
    (faults : PartFaults) (owner : ℕ) (row : FileRow) (w : World) (e : PartEnd)
    → (persist faults owner row w).0 ≡ err e
    → (persist faults owner row w).1 ≡ w
unfolding persist persist_tx
persist-err faults owner row w e h = ground arith

-- PutStream does not succeed where a write fails.
put_stream-fails :
    (root : CleanPath) (faults : DiskFaults) (key : Text) (bytes : Bytes) (disk : Files)
    → (put_stream root faults key (record { bytes = bytes; fails = true }) disk).0 ≢ ok tt
unfolding put_stream
put_stream-fails root faults key bytes disk h = ground (arith, h)

module _ (root : CleanPath) (storage_text : StorageError → Text) (faults : PartFaults) (key : Text)
    (max : Option ℤ) (part : Part) (w : World) where
  abbrev copied : World
  copied = (copy_part_to_storage root storage_text faults key max part w).1

  -- The copy touches the storage alone.
  copy_part-db :
      (copied.db ≡ w.db) × (copied.audit ≡ w.audit) × (copied.uploaded_total ≡ w.uploaded_total)
  unfolding copy_part_to_storage
  copy_part-db = ground arith

  -- A copy that succeeds has the size of the part, and PutStream took all of it.
  copy_part-ok :
      (size : ℕ)
      → (copy_part_to_storage root storage_text faults key max part w).0 ≡ ok size
      → (size ≡ length (joined part.chunks))
        × (faults.reads ≡ none)
        × ((put_stream root faults.put key
              (record { bytes = joined part.chunks; fails = false })
              w.disk).0
            ≡ ok tt)
        × (copied.disk
            ≡ (put_stream root faults.put key
                (record { bytes = joined part.chunks; fails = false })
                w.disk).1)
  unfolding copy_part_to_storage
  copy_part-ok size h =
      let pumped = pump max part.broken_by (taken root faults.put key faults.reads) 0 part.chunks in
      let whole =
        pump-joined max part.broken_by (taken root faults.put key faults.reads) 0 part.chunks in
      elim (Option-cases faults.reads) [
        | inl all ↦ ground (arith, h, whole, all)
        | inr (n, few) ↦
            absurd (ground (arith, h, few, put_stream-fails root faults.put key pumped.sent w.disk))
      ]

module _ (root : CleanPath) (storage_text : StorageError → Text) (sniff : Bytes → Sniffed)
    (keys : Keys) (max : Option ℤ) (owner : ℕ) (folder : Option ℕ) (run : PartRun) (w : World) where
  abbrev pub step_of : Result PartEnd Uploaded × World
  step_of = upload_part root storage_text sniff keys max owner folder run w

  abbrev sized : ℕ
  sized = length (joined run.part.chunks)

  abbrev pub row : FileRow
  row = row_of root storage_text sniff keys max owner folder run sized

  abbrev copying : Result PartEnd ℕ × World
  copying =
      copy_part_to_storage root storage_text run.faults (keys.temp owner run.id) max run.part w

  abbrev moving : Result StorageError (Unit {0}) × Files
  moving =
      move root run.faults.disk (keys.temp owner run.id) (keys.final owner run.now run.id)
        copying.1.disk

  abbrev moved : World
  moved = record copying.1 { disk = moving.1 }

  abbrev persisting : ℕ → Result PartEnd (Unit {0}) × World
  persisting size =
      persist run.faults owner (row_of root storage_text sniff keys max owner folder run size) moved

  upload_part-refused :
      (e : PartEnd)
      → step_of.0 ≡ err e
      → (step_of.1.db ≡ w.db)
        × (step_of.1.audit ≡ w.audit)
        × (step_of.1.uploaded_total ≡ w.uploaded_total)
  unfolding upload_part store_part record_part
  upload_part-refused e h =
      let same =
        copy_part-db root storage_text run.faults (keys.temp owner run.id) max run.part w in
      elim (Result-cases copying.0) [
        | inr (f, c) ↦ ground (arith, h, c, same)
        | inl (size, c) ↦ elim (Result-cases moving.0) [
          | inr (f, m) ↦ ground (arith, h, c, m, same)
          | inl (u, m) ↦ elim (Result-cases (persisting size).0) [
            | inl (v, p) ↦ ground (arith, h, c, m, p, same)
            | inr (f, p) ↦
                let kept =
                  persist-err run.faults owner
                    (row_of root storage_text sniff keys max owner folder run size) moved f p in
                ground (arith, h, c, m, p, same, kept)
          ]
        ]
      ]

  upload_part-accepted :
      (u : Uploaded)
      → step_of.0 ≡ ok u
      → (u ≡ uploaded run.id row.name row.original_name sized)
        × (step_of.1.db ≡ add_usage owner sized (record w.db { files = row ∷ w.db.files }))
        × (ensure_quota_allows_size run.faults.check owner step_of.1.db ≡ true)
  unfolding upload_part store_part record_part
  upload_part-accepted u h =
      let same =
        copy_part-db root storage_text run.faults (keys.temp owner run.id) max run.part w in
      elim (Result-cases copying.0) [
        | inr (f, c) ↦ absurd (ground (arith, h, c))
        | inl (size, c) ↦ elim (Result-cases moving.0) [
          | inr (f, m) ↦ absurd (ground (arith, h, c, m))
          | inl (u, m) ↦ elim (Result-cases (persisting size).0) [
            | inr (f, p) ↦ absurd (ground (arith, h, c, m, p))
            | inl (v, p) ↦
                let kept =
                  persist-ok run.faults owner
                    (row_of root storage_text sniff keys max owner folder run size) moved p in
                let whole =
                  (copy_part-ok root storage_text run.faults (keys.temp owner run.id) max run.part w
                    size c).0 in
                ground (arith, h, c, m, p, same, kept, whole)
          ]
        ]
      ]

  abbrev pub stored : Result StorageError (Unit {0}) × Files
  stored =
      put_stream root run.faults.put (keys.temp owner run.id)
        (record { bytes = joined run.part.chunks; fails = false }) w.disk

  abbrev pub published : Result StorageError (Unit {0}) × Files
  published =
      move root run.faults.disk (keys.temp owner run.id) (keys.final owner run.now run.id) stored.1

  upload_part-stored :
      (u : Uploaded)
      → step_of.0 ≡ ok u
      → (stored.0 ≡ ok tt) × (published.0 ≡ ok tt) × (step_of.1.disk ≡ published.1)
  unfolding upload_part store_part record_part
  upload_part-stored u h = elim (Result-cases copying.0) [
    | inr (f, c) ↦ absurd (ground (arith, h, c))
    | inl (size, c) ↦
        let (is_whole, calm, put, disk) =
          copy_part-ok root storage_text run.faults (keys.temp owner run.id) max run.part w size
            c in
        elim (Result-cases moving.0) [
          | inr (f, m) ↦ absurd (ground (arith, h, c, m))
          | inl (u, m) ↦ elim (Result-cases (persisting size).0) [
            | inr (f, p) ↦ absurd (ground (arith, h, c, m, p))
            | inl (v, p) ↦
                let kept =
                  persist-ok run.faults owner
                    (row_of root storage_text sniff keys max owner folder run size) moved p in
                (put, rw disk at m, ground (arith, h, c, m, p, kept, disk))
          ]
        ]
  ]

  -- A part of a form that is listed as uploaded was stored with all its bytes and moved to its final
  -- key, and the database has its row and its size, within the quota. A part that is not leaves the
  -- database, the audit log and the counter as they were.
  pub upload_part-effect :
      ((u : Uploaded) × (step_of.0 ≡ ok u)
        × (u ≡ uploaded run.id row.name row.original_name sized)
        × (stored.0 ≡ ok tt)
        × (published.0 ≡ ok tt)
        × (step_of.1.disk ≡ published.1)
        × (step_of.1.db ≡ add_usage owner sized (record w.db { files = row ∷ w.db.files }))
        × (ensure_quota_allows_size run.faults.check owner step_of.1.db ≡ true))
      ⊎ ((e : PartEnd) × (step_of.0 ≡ err e)
          × (step_of.1.db ≡ w.db)
          × (step_of.1.audit ≡ w.audit)
          × (step_of.1.uploaded_total ≡ w.uploaded_total))
  upload_part-effect = elim (Result-cases step_of.0) [
    | inl (u, h) ↦
        let (same, db, quota) = upload_part-accepted u h in
        let (put, moves, disk) = upload_part-stored u h in
        inl (u, h, same, put, moves, disk, db, quota)
    | inr (e, h) ↦ let (db, audit, total) = upload_part-refused e h in inr (e, h, db, audit, total)
  ]
