-- ===== src/Uploads/Resume.antt =====
-- Chunks that arrive whole and in order make up the file: uploadChunk over a whole upload.
use mathlib.Core.Path.{subst}
use personal_space.Prelude.{
  ℕ, ◌+◌, ◌-◌, ◌<◌, ◌≡◌, refl, sym, ap, ◌∙◌, true, false, Text, Option, none, some, ok, List, [],
  ◌∷◌, ◌++◌, append-nil, append_assoc, length, length-append, take_all, arith, ℤ, pos, negsuc,
  int64_limit,
}
use personal_space.Database.Rows.{UploadSession}
use personal_space.Storage.Path.{CleanPath}
use personal_space.Storage.Files.{Bytes, Stream, no_faults, path_of, append_at, content_of}
use personal_space.Settings.Upload.{UploadSettings, get_upload_settings}
use personal_space.Settings.UploadRoundtrip
use personal_space.Server.World.{World, serve}
use personal_space.Uploads.Session.{bound_of, over_max, over_total, limit_reader, load_session}
use personal_space.Uploads.Chunk.{
  ChunkFaults, ChunkRequest, is_writable, check_offset, admitted, chunk_reader, check_bounds,
  advance, chunk_tx, upload_chunk,
}
use personal_space.Uploads.Progress.{row, held, taken, offset_after, upload_chunk-200}

abbrev pub calm : ChunkFaults
calm = record {
  settings = UploadRoundtrip.no_faults;
  begin = false;
  load = false;
  disk = no_faults;
  save = false;
  commit = false;
}

-- A bound with room for the one byte that is read past it.
abbrev pub IsBound : Option ℤ → Type 0
IsBound (some (pos max)) = max + 1 < int64_limit
IsBound _ = Unit {0}

admitted_whole :
    (max : Option ℤ) (uploaded : ℕ) (body : Stream)
    → IsBound max
    → body.fails ≡ false
    → over_max max (uploaded + length body.bytes) ≡ false
    → ((admitted max uploaded body).bytes ≡ body.bytes)
      × ((admitted max uploaded body).fails ≡ false)
unfolding admitted limit_reader
admitted_whole none uploaded body b h o = (refl, h)
admitted_whole (some (negsuc n)) uploaded body b h o = (refl, h)
admitted_whole (some (pos max)) uploaded body b h o =
    (ground (arith, take_all (max - uploaded + 1) body.bytes), ground arith)

over_max_earlier :
    (max : Option ℤ) (m n : ℕ) → over_max max (m + n) ≡ false → over_max max m ≡ false
over_max_earlier none m n h = refl
over_max_earlier (some (negsuc k)) m n h = refl
over_max_earlier (some (pos max)) m n h = ground arith

-- A chunk that uploadChunk can take at an offset.
pub record Fits (cfg : UploadSettings) (total : Option ℕ) (upload offset : ℕ) (req : ChunkRequest)
    : Type 0 where
  pub asked : req.upload ≡ some upload
  pub whole : req.body.fails ≡ false
  pub header : check_offset req.offset offset ≡ ok tt
  pub within_max : over_max (bound_of cfg) (offset + length req.body.bytes) ≡ false
  pub within_total : over_total total (offset + length req.body.bytes) ≡ false

module _ (root : CleanPath) (cfg : UploadSettings) (user upload : ℕ)
    (bounded : IsBound (bound_of cfg)) where
  -- Where no call fails, a chunk that fits is answered 200, and is taken whole.
  pub upload_chunk_accepts :
      (req : ChunkRequest) (w : World) (s : UploadSession) (path : Text)
      → row user upload w ≡ some s
      → path_of root s.temp_key ≡ ok path
      → get_upload_settings UploadRoundtrip.no_faults w.db.settings ≡ some cfg
      → is_writable s.status ≡ true
      → length (held path w) ≡ s.uploaded_bytes
      → Fits cfg s.total_size upload s.uploaded_bytes req
      → ((serve (upload_chunk root calm (some user) req) w).0.code ≡ 200)
        × (taken cfg s req ≡ req.body.bytes)
  unfolding upload_chunk chunk_tx chunk_reader check_bounds load_session append_at
  upload_chunk_accepts req w s path found named policy writable sync fits =
      let (all, fine) =
        admitted_whole (bound_of cfg) s.uploaded_bytes req.body bounded fits.whole
          fits.within_max in
      let room =
        over_max_earlier (bound_of cfg) s.uploaded_bytes (length req.body.bytes) fits.within_max in
      let inside : over_max (bound_of cfg) (offset_after cfg s req) ≡ false =
        rw all fits.within_max in
      let below : over_total s.total_size (offset_after cfg s req) ≡ false =
        rw all fits.within_total in
      (ground (arith, fine, room, inside, below), all)

-- The policy is not touched by a chunk.
settings-chunk_tx :
    (root : CleanPath) (cfg : UploadSettings) (user upload : ℕ) (req : ChunkRequest) (w : World)
    → (chunk_tx root calm cfg user upload req w).1.db.settings ≡ w.db.settings
unfolding chunk_tx chunk_reader check_bounds load_session append_at
settings-chunk_tx root cfg user upload req w = ground arith

settings-upload_chunk :
    (root : CleanPath) (cfg : UploadSettings) (user upload : ℕ) (req : ChunkRequest) (w : World)
    → get_upload_settings UploadRoundtrip.no_faults w.db.settings ≡ some cfg
    → req.upload ≡ some upload
    → (serve (upload_chunk root calm (some user) req) w).1.db.settings ≡ w.db.settings
unfolding upload_chunk
settings-upload_chunk root cfg user upload req w policy asked =
    ground (arith, policy, asked, settings-chunk_tx root cfg user upload req w)

-- The requests one after the other.
pub run_chunks : CleanPath → ℕ → List ChunkRequest → World → World
run_chunks root user [] w = w
run_chunks root user (req ∷ reqs) w =
    run_chunks root user reqs (serve (upload_chunk root calm (some user) req) w).1

-- What the client sends, in order.
abbrev pub bodies : List ChunkRequest → Bytes
bodies [] = []
bodies (req ∷ reqs) = req.body.bytes ++ bodies reqs

abbrev pub AllFit : UploadSettings → Option ℕ → ℕ → ℕ → List ChunkRequest → Type 0
AllFit cfg total upload offset [] = Unit {0}
AllFit cfg total upload offset (req ∷ reqs) =
    Fits cfg total upload offset req × AllFit cfg total upload (offset + length req.body.bytes) reqs

-- A session whose row says how long its temporary file is.
pub record InSync (root : CleanPath) (user upload : ℕ) (path : Text) (total : Option ℕ) (w : World)
    : Type 0 where
  pub session : UploadSession
  pub found : row user upload w ≡ some session
  pub named : path_of root session.temp_key ≡ ok path
  pub writable : is_writable session.status ≡ true
  pub declared : session.total_size ≡ total
  pub length_held : length (held path w) ≡ session.uploaded_bytes

module _ (root : CleanPath) (cfg : UploadSettings) (user upload : ℕ)
    (bounded : IsBound (bound_of cfg)) (path : Text) (total : Option ℕ) where
  step : ChunkRequest → World → World
  step req w = (serve (upload_chunk root calm (some user) req) w).1

  step-InSync :
      (req : ChunkRequest) (w : World) (before : InSync root user upload path total w)
      → get_upload_settings UploadRoundtrip.no_faults w.db.settings ≡ some cfg
      → Fits cfg total upload before.session.uploaded_bytes req
      → (after : InSync root user upload path total (step req w)) × (after.session.uploaded_bytes
          ≡ before.session.uploaded_bytes + length req.body.bytes)
        × (held path (step req w) ≡ held path w ++ req.body.bytes)
        × (get_upload_settings UploadRoundtrip.no_faults (step req w).db.settings ≡ some cfg)
  unfolding step
  step-InSync req w before policy fits =
      let s = before.session in
      let fits' : Fits cfg s.total_size upload s.uploaded_bytes req =
        subst (λ t. Fits cfg t upload s.uploaded_bytes req) (sym before.declared) fits in
      let (answer, all) =
        upload_chunk_accepts root cfg user upload bounded req w s path before.found before.named
          policy before.writable before.length_held fits' in
      let done =
        upload_chunk-200 root calm cfg user upload req w s path before.found before.named policy
          fits.asked answer in
      let grown : held path (step req w) ≡ held path w ++ req.body.bytes =
        ap content_of done.1 ∙ ap (λ bs. held path w ++ bs) all in
      (
        record {
          session = advance (offset_after cfg s req) s;
          found = done.3;
          named = before.named;
          writable = refl;
          declared = before.declared;
          length_held =
              ap length grown
              ∙ omega (
                arith,
                length-append (held path w) req.body.bytes,
                before.length_held,
                ap length all,
              );
        },
        ap (λ bs. s.uploaded_bytes + length bs) all,
        grown,
        ap (λ rows. get_upload_settings UploadRoundtrip.no_faults rows)
              (settings-upload_chunk root cfg user upload req w policy fits.asked)
            ∙ policy,
      )

  -- A client that sends chunks which arrive whole, each at the offset where the one before ended and
  -- within the bounds, to a server on which no call fails, under a policy whose bound on a file, if it
  -- has one, is below the greatest int64, ends with a temporary file of exactly what it sent, behind
  -- what was there, and with a session that is still writable and says the file's length.
  pub resumed_upload :
      (reqs : List ChunkRequest) (w : World) (before : InSync root user upload path total w)
      → get_upload_settings UploadRoundtrip.no_faults w.db.settings ≡ some cfg
      → AllFit cfg total upload before.session.uploaded_bytes reqs
      → InSync root user upload path total (run_chunks root user reqs w)
        × (held path (run_chunks root user reqs w) ≡ held path w ++ bodies reqs)
  unfolding run_chunks step
  resumed_upload [] w before policy fits = (before, sym (append-nil (held path w)))
  resumed_upload (req ∷ reqs) w before policy fits =
      let (after, offset, grown, policy') = step-InSync req w before policy fits.0 in
      let (last, all) =
        resumed_upload reqs (serve (upload_chunk root calm (some user) req) w).1 after policy'
          (subst (λ n. AllFit cfg total upload n reqs) (sym offset) fits.1) in
      (
        last,
        all
            ∙ ap (λ bs. bs ++ bodies reqs) grown
            ∙ append_assoc (held path w) req.body.bytes (bodies reqs),
      )
