-- ===== src/Tests/CompleteRuns.antt =====
-- uploadInit and uploadComplete at work.
use personal_space.Prelude.{
  ℕ, ◌≤◌, ◌≡◌, ◌≢◌, refl, true, false, [], ◌∷◌, Text, codes, none, some, ok, trim_space, trim_left,
  is_space, is_empty, text_eq, text_eq_refl, arith, find, any, pos,
}
use personal_space.Database.Rows.{
  UploadSession, uploading, initialized, user_of, file_clash, insert_file,
}
use personal_space.Storage.Files.{move}
use personal_space.Settings.UploadRoundtrip
use personal_space.Server.Names.{normalize_node_name, delete_code, base}
use personal_space.Server.World.{World, serve}
use personal_space.Uploads.Session.{
  load_session, ensure_quota_allows_size, can_user_store_bytes, validate_parent_ownership,
}
use personal_space.Uploads.Init.{
  InitFaults, InitRequest, absent, target_of, check_size, upload_init,
}
use personal_space.Uploads.Complete.{
  CompleteFaults, file_of, complete_session, finalize, complete_tx, upload_complete, is_terminal,
  is_incomplete,
}
use personal_space.Uploads.Progress.{row}
use personal_space.Uploads.Completion.{upload_complete-200, upload_complete-refused}
use personal_space.Uploads.Admission.{IsFlat, IsAdmitted, upload_init-201}
use personal_space.Tests.Samples.{
  root, keys, temp, final, temp_path, final_path, apart, alice, session, world, policy,
  no_policy_row, calm, final_key,
}

abbrev full : World
full = world (session uploading 4) (1 ∷ 2 ∷ 3 ∷ 4 ∷ [])

abbrev finished : World
finished = (serve (upload_complete root keys calm 600 7 8 (some 1) (some 5)) full).1

complete_ok : (serve (upload_complete root keys calm 600 7 8 (some 1) (some 5)) full).0.code ≡ 200
unfolding upload_complete complete_tx finalize load_session insert_file move
    ensure_quota_allows_size
complete_ok = ground (arith, temp_path, final_path, text_eq_refl temp)

upload_complete-200_example :
    (is_terminal uploading ≡ false)
    × (is_incomplete (session uploading 4) ≡ false)
    × (finished.db.files ≡ file_of 600 8 1 final_key (session uploading 4) ∷ [])
    × (any (file_clash (file_of 600 8 1 final_key (session uploading 4))) [] ≡ false)
    × (find (user_of 1) finished.db.users ≡ some (record alice { used = 14 }))
    × (14 ≤ 100)
    × (row 1 5 finished ≡ some (complete_session 8 (session uploading 4)))
    × (finished.disk final ≡ full.disk temp)
    × (finished.disk temp ≡ none)
upload_complete-200_example =
    upload_complete-200 root keys calm 600 7 8 1 5 full (session uploading 4) temp final refl refl
      temp_path final_path apart alice refl refl complete_ok

-- The same, but for a failure when the session is saved.
abbrev unsaved : CompleteFaults
unsaved = record calm { save = true }

complete_fails :
    (serve (upload_complete root keys unsaved 600 7 8 (some 1) (some 5)) full).0.code ≢ 200
unfolding upload_complete complete_tx finalize load_session insert_file move
    ensure_quota_allows_size
complete_fails = ground (arith, temp_path, final_path, text_eq_refl temp)

final_free : full.disk final ≡ none
unfolding text_eq
final_free = refl

upload_complete-refused_example :
    ((serve (upload_complete root keys unsaved 600 7 8 (some 1) (some 5)) full).1.db ≡ full.db)
    × ((serve (upload_complete root keys unsaved 600 7 8 (some 1) (some 5)) full).1.audit ≡ [])
    × ((q : Text)
        → (serve (upload_complete root keys unsaved 600 7 8 (some 1) (some 5)) full).1.disk q
          ≡ full.disk q)
upload_complete-refused_example =
    upload_complete-refused root keys unsaved 600 7 8 1 5 full (session uploading 4) temp final refl
      refl temp_path final_path apart refl refl final_free complete_fails

abbrev init_calm : InitFaults
init_calm = record {
  parent = false;
  settings = UploadRoundtrip.no_faults;
  quota = false;
  insert = false;
}

abbrev init_request : ℕ → InitRequest
init_request n = record {
  folder = absent;
  original_name = codes " b.txt";
  target_name = [];
  total_size = some (pos n);
}

init_ok :
    (serve (upload_init keys init_calm 600 9 (some 1) (some (init_request 20))) full).0.code ≡ 201
unfolding upload_init validate_parent_ownership check_size can_user_store_bytes target_of
    normalize_node_name delete_code base trim_space trim_left is_space is_empty text_eq
init_ok = ground (arith, no_policy_row)

upload_init-201_example :
    (s : UploadSession) × (row 1 9
        (serve (upload_init keys init_calm 600 9 (some 1) (some (init_request 20))) full).1
      ≡ some s)
    × ((serve
          (upload_init keys init_calm 600 9 (some 1) (some (init_request 20)))
          full).1.db.uploads
        ≡ s ∷ full.db.uploads)
    × (s.status ≡ initialized)
    × (s.uploaded_bytes ≡ 0)
    × (s.temp_key ≡ keys.temp 1 9)
    × (s.expires_at ≡ some 605400)
    × IsFlat s.target_name
    × (is_empty s.target_name ≡ false)
    × (validate_parent_ownership false 1 s.folder full.db ≡ ok tt)
    × IsAdmitted policy alice s.total_size
upload_init-201_example =
    upload_init-201 keys init_calm 600 9 1 full (init_request 20) policy alice no_policy_row refl
      init_ok
