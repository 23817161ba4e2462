-- ===== src/Uploads/Interrupted.antt =====
-- What uploadChunk leaves behind when the connection breaks within a chunk, or a chunk is too long.
use personal_space.Prelude.{
  ℕ, ◌+◌, ◌≤◌, ◌<◌, ◌≡◌, ◌≢◌, refl, sym, ap, ◌∙◌, ◌⊎◌, inl, inr, true, false, Text, Option, none,
  some, ok, List, [], ◌∷◌, ◌++◌, length, length-append, arith, text_eq_refl, find,
}
use personal_space.Database.Rows.{Database, UploadSession, session_of}
use personal_space.Storage.Path.{CleanPath}
use personal_space.Storage.Files.{path_of, append_at}
use personal_space.Settings.Upload.{UploadSettings, get_upload_settings}
use personal_space.Settings.UploadRoundtrip
use personal_space.Server.World.{World, Response, serve}
use personal_space.Uploads.Session.{Body, fail, bound_of, load_session}
use personal_space.Uploads.Chunk.{
  ChunkFaults, ChunkRequest, is_writable, check_offset, admitted, chunk_reader, check_bounds,
  chunk_tx, upload_chunk,
}
use personal_space.Uploads.Progress.{row, held, taken, upload_chunk-200, upload_chunk-refused}
use personal_space.Uploads.Resume.{calm}

-- The temporary file is longer or shorter than the session says.
pub record OutOfStep (root : CleanPath) (user upload : ℕ) (path : Text) (s : UploadSession)
    (w : World) : Type 0 where
  pub found : row user upload w ≡ some s
  pub named : path_of root s.temp_key ≡ ok path
  pub apart : length (held path w) ≢ s.uploaded_bytes

no_policy :
    (root : CleanPath) (faults : ChunkFaults) (user upload : ℕ) (req : ChunkRequest) (w : World)
    → req.upload ≡ some upload
    → get_upload_settings faults.settings w.db.settings ≡ none
    → serve (upload_chunk root faults (some user) req) w
      ≡ (fail 500 "could not load upload settings", w)
unfolding upload_chunk
no_policy root faults user upload req w asked e = ground (arith, asked, e)

module _ (root : CleanPath) (user upload : ℕ) (path : Text) (s : UploadSession) where
  same_step :
      (w v : World)
      → OutOfStep root user upload path s w
      → v.db ≡ w.db
      → held path v ≡ held path w
      → OutOfStep root user upload path s v
  same_step w v o same kept = record {
    found = ap (λ (d : Database). find (session_of upload user) d.uploads) same ∙ o.found;
    named = o.named;
    apart = λ e. o.apart (sym (ap length kept) ∙ e);
  }

  -- Nothing that a client sends to a session out of step is accepted, whatever fails, and the
  -- session stays out of step with the same row.
  pub OutOfStep-chunk :
      (faults : ChunkFaults) (req : ChunkRequest) (w : World)
      → req.upload ≡ some upload
      → OutOfStep root user upload path s w
      → ((serve (upload_chunk root faults (some user) req) w).0.code ≢ 200)
        × OutOfStep root user upload path s (serve (upload_chunk root faults (some user) req) w).1
  OutOfStep-chunk faults req w asked o = go (get_upload_settings faults.settings w.db.settings) refl
    where
      next : World
      next = (serve (upload_chunk root faults (some user) req) w).1

      go :
          (cfg : Option UploadSettings)
          → get_upload_settings faults.settings w.db.settings ≡ cfg
          → ((serve (upload_chunk root faults (some user) req) w).0.code ≢ 200)
            × OutOfStep root user upload path s
                (serve (upload_chunk root faults (some user) req) w).1
      go none policy =
          let e = no_policy root faults user upload req w asked policy in
          (
            λ h. absurd (omega (arith, ap (λ (r : Response Body × World). r.0.code) e, h)),
            same_step w next o (ap (λ r. r.1.db) e) (ap (λ r. held path r.1) e),
          )
      go (some cfg) policy =
          let refused : (serve (upload_chunk root faults (some user) req) w).0.code ≢ 200 = λ h.
            o.apart
              (upload_chunk-200 root faults cfg user upload req w s path o.found o.named policy
                asked h).2 in
          let (same, change) =
            upload_chunk-refused root faults cfg user upload req w s path o.found o.named policy
              asked refused in
          (refused, same_step w next o same (unchanged change))
        where
          unchanged :
              (held path next ≡ held path w)
                ⊎ ((held path next ≡ held path w ++ taken cfg s req)
                    × (length (held path w) ≡ s.uploaded_bytes))
              → held path next ≡ held path w
          unchanged (inl e) = e
          unchanged (inr (_, e)) = absurd (o.apart e)

  pub attempts : List (ChunkFaults × ChunkRequest) → World → World
  attempts [] w = w
  attempts ((faults, req) ∷ rest) w =
      attempts rest (serve (upload_chunk root faults (some user) req) w).1

  abbrev pub AllAsk : List (ChunkFaults × ChunkRequest) → Type 0
  AllAsk [] = Unit {0}
  AllAsk ((faults, req) ∷ rest) = (req.upload ≡ some upload) × AllAsk rest

  OutOfStep-attempts :
      (tries : List (ChunkFaults × ChunkRequest)) (w : World)
      → AllAsk tries
      → OutOfStep root user upload path s w
      → OutOfStep root user upload path s (attempts tries w)
  unfolding attempts
  OutOfStep-attempts [] w asked o = o
  OutOfStep-attempts ((faults, req) ∷ rest) w asked o =
      OutOfStep-attempts rest (serve (upload_chunk root faults (some user) req) w).1 asked.1
        (OutOfStep-chunk faults req w asked.0 o).1

  -- A connection that breaks after at least one byte of a chunk leaves the session out of step: the
  -- bytes stay in the temporary file, the row keeps its offset. (Here with no bound on the size.)
  interrupted_chunk :
      (cfg : UploadSettings) (req : ChunkRequest) (w : World)
      → row user upload w ≡ some s
      → path_of root s.temp_key ≡ ok path
      → get_upload_settings UploadRoundtrip.no_faults w.db.settings ≡ some cfg
      → bound_of cfg ≡ none
      → req.upload ≡ some upload
      → is_writable s.status ≡ true
      → check_offset req.offset s.uploaded_bytes ≡ ok tt
      → length (held path w) ≡ s.uploaded_bytes
      → 0 < length req.body.bytes
      → req.body.fails ≡ true
      → OutOfStep root user upload path s (serve (upload_chunk root calm (some user) req) w).1
  unfolding upload_chunk chunk_tx chunk_reader check_bounds load_session append_at admitted
  interrupted_chunk cfg req w found named policy free asked writable header sync some_bytes broken =
      record {
        found = ground (arith, found);
        named = named;
        apart =
            let grown : held path (serve (upload_chunk root calm (some user) req) w).1
                ≡ held path w ++ req.body.bytes =
              ground (arith, text_eq_refl path) in
            λ e. absurd (
              omega (
                arith,
                e,
                ap length grown,
                sync,
                length-append (held path w) req.body.bytes,
                some_bytes,
              ));
      }

  -- Once the connection has broken within a chunk of an upload with no bound on its size, no later chunk
  -- of the session is accepted, whatever other chunks of the session its owner sends in between,
  -- whatever fails in them, and as long as there are only chunks the session's row stays as it is.
  pub interrupted_upload_stuck :
      (cfg : UploadSettings) (req : ChunkRequest) (w : World)
      (tries : List (ChunkFaults × ChunkRequest)) (faults : ChunkFaults) (last : ChunkRequest)
      → row user upload w ≡ some s
      → path_of root s.temp_key ≡ ok path
      → get_upload_settings UploadRoundtrip.no_faults w.db.settings ≡ some cfg
      → bound_of cfg ≡ none
      → req.upload ≡ some upload
      → is_writable s.status ≡ true
      → check_offset req.offset s.uploaded_bytes ≡ ok tt
      → length (held path w) ≡ s.uploaded_bytes
      → 0 < length req.body.bytes
      → req.body.fails ≡ true
      → AllAsk tries
      → last.upload ≡ some upload
      → ((serve
            (upload_chunk root faults (some user) last)
            (attempts tries (serve (upload_chunk root calm (some user) req) w).1)).0.code
          ≢ 200)
        × (row user upload
              (serve
                (upload_chunk root faults (some user) last)
                (attempts tries (serve (upload_chunk root calm (some user) req) w).1)).1
            ≡ some s)
  interrupted_upload_stuck cfg req w tries faults last found named policy free asked writable header
        sync bytes broken all_ask last_asks =
      let o =
        interrupted_chunk cfg req w found named policy free asked writable header sync bytes
          broken in
      let later =
        OutOfStep-attempts tries (serve (upload_chunk root calm (some user) req) w).1 all_ask o in
      let (refused, still) =
        OutOfStep-chunk faults last
          (attempts tries (serve (upload_chunk root calm (some user) req) w).1) last_asks later in
      (refused, still.found)

  -- A chunk that takes the upload past its declared size is answered 409; the row is not marked
  -- 'failed' but keeps its status and offset, and the session is out of step from then on.
  pub oversized_chunk :
      (cfg : UploadSettings) (req : ChunkRequest) (w : World) (total : ℕ)
      → row user upload w ≡ some s
      → path_of root s.temp_key ≡ ok path
      → get_upload_settings UploadRoundtrip.no_faults w.db.settings ≡ some cfg
      → bound_of cfg ≡ none
      → req.upload ≡ some upload
      → is_writable s.status ≡ true
      → check_offset req.offset s.uploaded_bytes ≡ ok tt
      → length (held path w) ≡ s.uploaded_bytes
      → s.total_size ≡ some total
      → s.uploaded_bytes ≤ total
      → total < s.uploaded_bytes + length req.body.bytes
      → req.body.fails ≡ false
      → ((serve (upload_chunk root calm (some user) req) w).0.code ≡ 409)
        × OutOfStep root user upload path s (serve (upload_chunk root calm (some user) req) w).1
  unfolding upload_chunk chunk_tx chunk_reader check_bounds load_session append_at admitted
  oversized_chunk cfg req w total found named policy free asked writable header sync declared room
        over whole =
      (
        ground (arith, text_eq_refl path),
        record {
          found = ground (arith, found);
          named = named;
          apart =
              let grown : held path (serve (upload_chunk root calm (some user) req) w).1
                  ≡ held path w ++ req.body.bytes =
                ground (arith, text_eq_refl path) in
              λ e. absurd (
                omega
                  (arith, e, ap length grown, sync, length-append (held path w) req.body.bytes));
        },
      )
