-- ===== src/Tests/ChunkRuns.antt =====
-- uploadChunk at work.
use personal_space.Prelude.{
  ℕ, ◌≡◌, ◌≢◌, ◌⊎◌, ◌++◌, refl, true, false, List, [], ◌∷◌, codes, none, some, ok, trim_space,
  trim_left, is_space, is_empty, text_eq, length, text_eq_refl, arith,
}
use personal_space.Database.Rows.{uploading, initialized}
use personal_space.Server.World.{World, respond, serve}
use personal_space.Uploads.Session.{progress, load_session, over_max, over_total, bound_of}
use personal_space.Uploads.Chunk.{
  ChunkRequest, check_offset, upload_chunk, chunk_tx, admitted, advance,
}
use personal_space.Server.Numbers.{parse_int64}
use personal_space.Uploads.Progress.{row, held, upload_chunk-200, upload_chunk-refused}
use personal_space.Uploads.Resume.{
  calm, AllFit, InSync, run_chunks, bodies, upload_chunk_accepts, IsBound, resumed_upload,
}
use personal_space.Uploads.Interrupted.{attempts, interrupted_upload_stuck}
use personal_space.Tests.Samples.{
  root, temp, temp_path, session, world, policy, no_policy_row, body,
}

abbrev chunk : List ℕ → ChunkRequest
chunk bytes = record { upload = some 5; offset = []; body = body bytes }

abbrev start : World
start = world (session initialized 0) []

abbrev two : List ChunkRequest
two = chunk (1 ∷ 2 ∷ []) ∷ chunk (3 ∷ 4 ∷ []) ∷ []

no_header : (n : ℕ) → check_offset [] n ≡ ok tt
unfolding check_offset trim_space trim_left is_empty
no_header n = refl

start_InSync : InSync root 1 5 temp (some 4) start
start_InSync = record {
  session = session initialized 0;
  found = refl;
  named = temp_path;
  writable = refl;
  declared = refl;
  length_held = ground (arith, text_eq_refl temp);
}

two_fit : AllFit policy (some 4) 5 0 two
unfolding text_eq
two_fit = (
  record {
    asked = refl;
    whole = refl;
    header = no_header 0;
    within_max = refl;
    within_total = refl;
  },
  (
    record {
      asked = refl;
      whole = refl;
      header = no_header 2;
      within_max = refl;
      within_total = refl;
    },
    tt,
  ),
)

bounded : IsBound (bound_of policy)
unfolding text_eq
bounded = tt

resumed_upload_example :
    InSync root 1 5 temp (some 4) (run_chunks root 1 two start)
    × (held temp (run_chunks root 1 two start) ≡ held temp start ++ bodies two)
unfolding start_InSync
resumed_upload_example =
    resumed_upload root policy 1 5 bounded temp (some 4) two start start_InSync no_policy_row
      two_fit

first_accepted : (serve (upload_chunk root calm (some 1) (chunk (1 ∷ 2 ∷ []))) start).0.code ≡ 200
unfolding text_eq
first_accepted =
    (upload_chunk_accepts root policy 1 5 bounded (chunk (1 ∷ 2 ∷ [])) start (session initialized 0)
      temp refl temp_path no_policy_row refl refl two_fit.0).0

upload_chunk-200_example :
    ((serve (upload_chunk root calm (some 1) (chunk (1 ∷ 2 ∷ []))) start).0
      ≡ respond 200 (progress 5 2 (some 4) uploading))
    × ((serve (upload_chunk root calm (some 1) (chunk (1 ∷ 2 ∷ []))) start).1.disk temp
        ≡ some (held temp start ++ (1 ∷ 2 ∷ [])))
    × (length (held temp start) ≡ 0)
    × (row 1 5 (serve (upload_chunk root calm (some 1) (chunk (1 ∷ 2 ∷ []))) start).1
        ≡ some (advance 2 (session initialized 0)))
    × (over_max (bound_of policy) 2 ≡ false)
    × (over_total (some 4) 2 ≡ false)
unfolding admitted text_eq
upload_chunk-200_example =
    upload_chunk-200 root calm policy 1 5 (chunk (1 ∷ 2 ∷ [])) start (session initialized 0) temp
      refl temp_path no_policy_row refl first_accepted

-- A chunk whose header names another offset.
abbrev wrong : ChunkRequest
wrong = record { upload = some 5; offset = codes "7"; body = body (1 ∷ []) }

wrong_refused : (serve (upload_chunk root calm (some 1) wrong) start).0.code ≢ 200
unfolding upload_chunk chunk_tx load_session check_offset trim_space trim_left is_space is_empty
    parse_int64
wrong_refused = ground (arith, no_policy_row)

upload_chunk-refused_example :
    ((serve (upload_chunk root calm (some 1) wrong) start).1.db ≡ start.db)
    × ((held temp (serve (upload_chunk root calm (some 1) wrong) start).1 ≡ held temp start)
        ⊎ ((held temp (serve (upload_chunk root calm (some 1) wrong) start).1
              ≡ held temp start ++ (1 ∷ []))
            × (length (held temp start) ≡ 0)))
unfolding admitted text_eq
upload_chunk-refused_example =
    upload_chunk-refused root calm policy 1 5 wrong start (session initialized 0) temp refl
      temp_path no_policy_row refl wrong_refused

-- A chunk whose connection breaks after one byte.
abbrev broken_chunk : ChunkRequest
broken_chunk = record {
  upload = some 5;
  offset = [];
  body = record { bytes = 1 ∷ []; fails = true };
}

empty_start : length (held temp start) ≡ 0
empty_start = ground (arith, text_eq_refl temp)

unbounded : bound_of policy ≡ none
unfolding text_eq
unbounded = refl

interrupted_upload_stuck_example :
    ((serve (upload_chunk root calm (some 1) (chunk (1 ∷ 2 ∷ []))) (
        attempts root 1 5 temp
          (session initialized 0)
          ((calm, chunk (2 ∷ [])) ∷ [])
          (serve (upload_chunk root calm (some 1) broken_chunk) start).1)).0.code
      ≢ 200)
    × (row 1 5
          (serve (upload_chunk root calm (some 1) (chunk (1 ∷ 2 ∷ []))) (
            attempts root 1 5 temp
              (session initialized 0)
              ((calm, chunk (2 ∷ [])) ∷ [])
              (serve (upload_chunk root calm (some 1) broken_chunk) start).1)).1
        ≡ some (session initialized 0))
interrupted_upload_stuck_example =
    interrupted_upload_stuck root 1 5 temp (session initialized 0) policy broken_chunk start
      ((calm, chunk (2 ∷ [])) ∷ []) calm (chunk (1 ∷ 2 ∷ [])) refl temp_path no_policy_row unbounded
      refl refl (no_header 0) empty_start (omega arith) refl (refl, tt) refl
