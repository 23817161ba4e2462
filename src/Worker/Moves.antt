-- ===== src/Worker/Moves.antt =====
-- processOne of backend/internal/preview/runner.go is one step of the queue of jobs.
use personal_space.Prelude.{
  ℕ, suc, leb, ◌≤◌, ◌<◌, ◌≡◌, refl, ◌⊎◌, inl, inr, Bool, true, false, Text, codes, List, [], ◌∷◌,
  some, ok, err, ◌==◌, update_where, Result-cases, Option-cases, Bool-cases, arith,
}
use personal_space.Database.Rows.{JobRow}
use personal_space.Storage.Path.{CleanPath}
use personal_space.Server.World.{World}
use personal_space.Worker.Tools.{Tools, RunnerFaults}
use personal_space.Worker.Claim.{
  ClaimError, no_preview_jobs, claim_failed, claim_next_job, is_free, oldest, update_job,
  processing,
}
use personal_space.Worker.Publish.{
  Product, publish, completed, fetch_file_for_metadata, copy_source,
}
use personal_space.Worker.Generate.{
  extract_media_metadata, metadata_of, video_thumbnail_of, thumbnail_of,
}
use personal_space.Worker.Office.{office_pdf_of}
use personal_space.Worker.Process.{
  was_processed, product_of, generate, generated, mark_job_failure, status_after, message_of,
  failed_with, process_one,
}

abbrev pub set_job : ℕ → (JobRow → JobRow) → List JobRow → List JobRow
set_job id f = update_where (λ k. k.id == id) f

-- A step of the queue: the oldest free job is taken, tried once more, and completed, given up, put
-- back, or left as it was when the worker lost it.
pub data Move (max : ℕ) (locked : ℕ → Bool) (js ks : List JobRow) : Type 0 where
  completes :
      (j : JobRow) (key : Text)
      → oldest (is_free locked) js ≡ some j
      → ks ≡ set_job j.id (λ k. completed key (processing k)) js
      → Move max locked js ks
  fails :
      (j : JobRow) (message : Text)
      → oldest (is_free locked) js ≡ some j
      → max ≤ suc j.attempts
      → ks ≡ set_job j.id (λ k. failed_with (codes "failed") message (processing k)) js
      → Move max locked js ks
  requeues :
      (j : JobRow) (message : Text)
      → oldest (is_free locked) js ≡ some j
      → suc j.attempts < max
      → ks ≡ set_job j.id (λ k. failed_with (codes "queued") message (processing k)) js
      → Move max locked js ks
  loses :
      (j : JobRow)
      → oldest (is_free locked) js ≡ some j
      → ks ≡ set_job j.id processing js
      → Move max locked js ks

set_job_twice :
    (id : ℕ) (g f : JobRow → JobRow) (js : List JobRow)
    → ((k : JobRow) → (f k).id ≡ k.id)
    → set_job id g (set_job id f js) ≡ set_job id (λ k. g (f k)) js
set_job_twice id g f [] same = refl
set_job_twice id g f (j ∷ js) same = ground (arith, same j, set_job_twice id g f js same)

module _ (root : CleanPath) (tools : Tools) (faults : RunnerFaults) where
  fetch-db : (id : ℕ) (w : World) → (fetch_file_for_metadata faults id w).1 ≡ w
  unfolding fetch_file_for_metadata
  fetch-db id w = ground arith

  metadata-db : (now id : ℕ) (w : World) → (metadata_of root tools faults now id w).1.db ≡ w.db
  unfolding metadata_of extract_media_metadata copy_source fetch_file_for_metadata
  metadata-db now id w = ground arith

  thumbnail-db : (id : ℕ) (w : World) → (thumbnail_of root tools faults id w).1.db ≡ w.db
  unfolding thumbnail_of video_thumbnail_of copy_source fetch_file_for_metadata
  thumbnail-db id w = ground arith

  office-db : (id : ℕ) (w : World) → (office_pdf_of root tools faults id w).1.db ≡ w.db
  unfolding office_pdf_of copy_source fetch_file_for_metadata
  office-db id w = ground arith

  pub product-db :
      (now : ℕ) (j : JobRow) (w : World) → (product_of root tools faults now j w).1.db ≡ w.db
  unfolding product_of
  product-db now j w =
      ground (arith, metadata-db now j.file w, thumbnail-db j.file w, office-db j.file w)

  publish-ok :
      (now preview job file : ℕ) (p : Product) (w : World)
      → (publish root tools faults now preview job file p w).0 ≡ ok tt
      → (publish root tools faults now preview job file p w).1.db.jobs
        ≡ set_job job (completed p.key) w.db.jobs
  unfolding publish
  publish-ok now preview job file p w h = ground arith

  publish-err :
      (now preview job file : ℕ) (p : Product) (w : World) (e : Text)
      → (publish root tools faults now preview job file p w).0 ≡ err e
      → (publish root tools faults now preview job file p w).1.db.jobs ≡ w.db.jobs
  unfolding publish
  publish-err now preview job file p w e h = ground arith

  -- A generator completes its job, or leaves the queue as it was.
  generate-ok :
      (now preview : ℕ) (j : JobRow) (w : World)
      → (generate root tools faults now preview j w).0 ≡ ok tt
      → (key : Text) × ((generate root tools faults now preview j w).1.db.jobs
          ≡ set_job j.id (completed key) w.db.jobs)
  unfolding generate
  generate-ok now preview j w h = elim (Result-cases (product_of root tools faults now j w).0) [
    | inr (e, failed) ↦ absurd (ground (arith, failed))
    | inl (made, m) ↦
        let after = (product_of root tools faults now j w).1 in
        (
          made.1.key,
          ground (arith, m, product-db now j w, publish-ok now preview j.id made.0.id made.1 after),
        )
  ]

  generate-err :
      (now preview : ℕ) (j : JobRow) (w : World) (e : Text)
      → (generate root tools faults now preview j w).0 ≡ err e
      → (generate root tools faults now preview j w).1.db.jobs ≡ w.db.jobs
  unfolding generate
  generate-err now preview j w e h = elim (Result-cases (product_of root tools faults now j w).0) [
    | inr (e2, failed) ↦ ground (arith, failed, product-db now j w)
    | inl (made, m) ↦
        let after = (product_of root tools faults now j w).1 in
        ground (arith, m, product-db now j w, publish-err now preview j.id made.0.id made.1 after e)
  ]

  -- A claim takes the oldest free job, or changes nothing.
  pub claim-ok :
      (locked : ℕ → Bool) (w : World) (j : JobRow)
      → (claim_next_job faults locked w).0 ≡ ok j
      → (k : JobRow) × (oldest (is_free locked) w.db.jobs ≡ some k)
        × (j ≡ processing k)
        × ((claim_next_job faults locked w).1 ≡ update_job k.id processing w)
  unfolding claim_next_job
  claim-ok locked w j h = elim (Option-cases (oldest (is_free locked) w.db.jobs)) [
    | inl nothing ↦ absurd (ground (arith, nothing))
    | inr (k, e) ↦ (k, e, ground (arith, e), ground (arith, e))
  ]

  claim-err :
      (locked : ℕ → Bool) (w : World) (e : ClaimError)
      → (claim_next_job faults locked w).0 ≡ err e
      → (claim_next_job faults locked w).1 ≡ w
  unfolding claim_next_job
  claim-err locked w e h = ground arith

  -- A failure puts the job back or gives it up, by its attempts, or loses it.
  failure-Move :
      (locked : ℕ → Bool) (now preview max : ℕ) (k : JobRow) (w after : World) (e : Text)
      → oldest (is_free locked) w.db.jobs ≡ some k
      → after.db.jobs ≡ set_job k.id processing w.db.jobs
      → Move max locked w.db.jobs
          (generated root tools faults max (processing k) (err e, after)).1.db.jobs
  unfolding mark_job_failure status_after
  failure-Move locked now preview max k w after e old jobs = elim (Option-cases faults.settle) [
    | inr (m, broken) ↦ loses k old (ground (arith, broken))
    | inl written ↦ elim (Bool-cases (leb max (suc k.attempts))) [
      | inl spent ↦ fails k (message_of e) old (ground arith) (
          ground (
            arith,
            written,
            set_job_twice k.id (failed_with (codes "failed") (message_of e)) processing w.db.jobs
                (λ j. refl),
          ))
      | inr left ↦ requeues k (message_of e) old (ground arith) (
          ground (
            arith,
            written,
            set_job_twice k.id (failed_with (codes "queued") (message_of e)) processing w.db.jobs
                (λ j. refl),
          ))
    ]
  ]

  after_claim-Move :
      (locked : ℕ → Bool) (now preview max : ℕ) (k : JobRow) (w : World)
      → oldest (is_free locked) w.db.jobs ≡ some k
      → Move max locked w.db.jobs
          (generated root tools faults max (processing k) (
            generate root tools faults now preview
              (processing k)
              (update_job k.id processing w))).1.db.jobs
  after_claim-Move locked now preview max k w old =
      let claimed_world = update_job k.id processing w in
      elim (Result-cases (generate root tools faults now preview (processing k) claimed_world).0) [
        | inl (u, done) ↦
            let (key, jobs) = generate-ok now preview (processing k) claimed_world done in
            completes k key old (
              ground (
                arith,
                done,
                jobs,
                set_job_twice k.id (completed key) processing w.db.jobs (λ j. refl),
              ))
        | inr (e, failed) ↦ rw failed (
            failure-Move locked now preview max k w
              (generate root tools faults now preview (processing k) claimed_world).1 e old
              (generate-err now preview (processing k) claimed_world e failed))
      ]

  refused-idle :
      (locked : ℕ → Bool) (now preview max : ℕ) (w : World) (e : ClaimError)
      → (claim_next_job faults locked w).0 ≡ err e
      → let (outcome, after) = process_one root tools faults locked now preview max w in
        (was_processed outcome ≡ false) × (after ≡ w)
  unfolding process_one
  refused-idle locked now preview max w no_preview_jobs r =
      (ground (arith, r), ground (arith, r, claim-err locked w no_preview_jobs r))
  refused-idle locked now preview max w (claim_failed t) r =
      (ground (arith, r), ground (arith, r, claim-err locked w (claim_failed t) r))

  -- processOne is one step of the queue where it has processed a job, and changes nothing where it has
  -- not, whichever of its calls fails.
  pub process_one-Move :
      (locked : ℕ → Bool) (now preview max : ℕ) (w : World)
      → let (outcome, after) = process_one root tools faults locked now preview max w in
        (was_processed outcome ≡ true) × Move max locked w.db.jobs after.db.jobs
        ⊎ (was_processed outcome ≡ false) × (after ≡ w)
  unfolding process_one
  process_one-Move locked now preview max w =
      elim (Result-cases (claim_next_job faults locked w).0) [
        | inl (j, taken) ↦
            let (k, old, same, after) = claim-ok locked w j taken in
            inl (
              (ground (arith, taken, same, after)),
              rw (taken, same, after) (after_claim-Move locked now preview max k w old),
            )
        | inr (e, refused) ↦ inr (refused-idle locked now preview max w e refused)
      ]
