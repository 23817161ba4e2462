-- ===== src/Tests/TusRuns.antt =====
-- The tus handlers at work.
use personal_space.Prelude.{
  ◌<◌, ◌≡◌, ◌⊎◌, ◌++◌, refl, false, [], ◌∷◌, codes, some, trim_space, trim_left, is_space, is_empty,
  text_eq, has_prefix, arith, length,
}
use personal_space.Database.Rows.{uploading, insert_file}
use personal_space.Storage.Files.{no_faults, move, append_at}
use personal_space.Server.Numbers.{parse_int64}
use personal_space.Server.World.{World, serve}
use personal_space.Uploads.Session.{ensure_quota_allows_size, limit_reader}
use personal_space.Uploads.Progress.{row, held}
use personal_space.Tus.Reply.{version_ok, load_or, at_offset}
use personal_space.Tus.Patch.{
  PatchFaults, PatchRequest, chunk_type, moved_on, offset_of, finalize_tus_session_tx, patch_tx,
  tus_patch,
}
use personal_space.Tus.Finalize.{IsFinalized}
use personal_space.Tus.Progress.{offset_after, tus_patch-204}
use personal_space.Tus.Progress.Lost.{uncommitted, tus_patch-uncommitted}
use personal_space.Tests.Samples.{
  root, keys, temp, final, temp_path, final_path, apart, alice, session, world, calm, body,
}

abbrev half : World
half = world (session uploading 2) (1 ∷ 2 ∷ [])

abbrev faults : PatchFaults
faults = record { append = no_faults; save = false; complete = calm }

abbrev rest : PatchRequest
rest = record {
  version = [];
  content_type = chunk_type;
  upload = some 5;
  offset = codes "2";
  body = body (3 ∷ 4 ∷ []);
}

rest_ok : (serve (tus_patch root keys faults 600 7 8 (some 1) rest) half).0.code ≡ 204
unfolding tus_patch patch_tx load_or append_at limit_reader finalize_tus_session_tx insert_file move
    ensure_quota_allows_size version_ok offset_of parse_int64 trim_space trim_left is_space is_empty
    text_eq has_prefix
rest_ok = ground (arith, temp_path, final_path)

tus_patch-204_example :
    (offset_of (codes "2") ≡ some 2)
    × (length (held temp half) ≡ 2)
    × ((serve (tus_patch root keys faults 600 7 8 (some 1) rest) half).0 ≡ at_offset 204 4)
    × (((4 < 4)
          × (row 1 5 (serve (tus_patch root keys faults 600 7 8 (some 1) rest) half).1
              ≡ some (moved_on 4 (session uploading 2)))
          × ((serve (tus_patch root keys faults 600 7 8 (some 1) rest) half).1.disk temp
              ≡ some (held temp half ++ (3 ∷ 4 ∷ []))))
        ⊎ ((offset_after 4 (session uploading 2) (body (3 ∷ 4 ∷ [])) ≡ 4)
            × IsFinalized keys 600 7 8 []
                (some (held temp half ++ (3 ∷ 4 ∷ [])))
                (serve (tus_patch root keys faults 600 7 8 (some 1) rest) half).1
                (record (session uploading 2) { uploaded_bytes = 4 })
                (moved_on 4 (session uploading 2))
                alice
                temp
                final))
unfolding limit_reader
tus_patch-204_example =
    tus_patch-204 root keys faults 600 7 8 rest half (session uploading 2) alice 4 temp final refl
      refl refl refl temp_path final_path apart refl rest_ok

tus_patch-uncommitted_example :
    ((serve (tus_patch root keys (uncommitted faults) 600 7 8 (some 1) rest) half).0.code ≡ 500)
    × ((serve (tus_patch root keys (uncommitted faults) 600 7 8 (some 1) rest) half).1.db ≡ half.db)
    × ((serve (tus_patch root keys (uncommitted faults) 600 7 8 (some 1) rest) half).1.disk
        ≡ (serve (tus_patch root keys faults 600 7 8 (some 1) rest) half).1.disk)
    × ((serve (tus_patch root keys (uncommitted faults) 600 7 8 (some 1) rest) half).1.audit
        ≡ (serve (tus_patch root keys faults 600 7 8 (some 1) rest) half).1.audit)
tus_patch-uncommitted_example =
    tus_patch-uncommitted root keys faults 600 7 8 1 5 rest half (session uploading 2) refl refl
      refl rest_ok
