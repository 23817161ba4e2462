-- ===== src/Uploads/Undo.antt =====
-- uploadComplete moves the file back where it fails after its Move.
use personal_space.Prelude.{
  ℕ, ◌≡◌, ◌⊎◌, inl, inr, false, ◌||◌, Text, none, some, ok, err, arith, text_eq, text_eq_iff,
  text_eq_refl, Bool-cases, Option-cases,
}
use personal_space.Database.Rows.{UploadSession, insert_file}
use personal_space.Storage.Path.{CleanPath, StorageError, canceled, io_failed, not_exist}
use personal_space.Storage.Files.{Bytes, Files, DiskFaults, no_faults, path_of, put, remove, move}
use personal_space.Server.World.{World, Response}
use personal_space.Uploads.Session.{Body}
use personal_space.Uploads.Init.{Keys}
use personal_space.Uploads.Complete.{CompleteFaults, finalize}

-- An object that is moved and moved back stands where it was, and all others as before.
there_and_back :
    (files : Files) (temp final : Text) (content : Bytes) (q : Text)
    → text_eq temp final ≡ false
    → files temp ≡ some content
    → files final ≡ none
    → put temp content (remove final (put final content (remove temp files))) q ≡ files q
there_and_back files temp final content q apart here free =
    ground (arith, text_eq_iff q temp, text_eq_iff q final)

move-cases :
    (root : CleanPath) (faults : DiskFaults) (source target temp final : Text) (files : Files)
    → path_of root source ≡ ok temp
    → path_of root target ≡ ok final
    → ((e : StorageError) × (move root faults source target files ≡ (err e, files)))
      ⊎ ((content : Bytes) × (files temp ≡ some content)
          × (move root faults source target files ≡ (ok tt, put final content (remove temp files))))
unfolding move
move-cases root faults source target temp final files from_path to_path =
    elim (Bool-cases (faults.canceled)) [
      | inl stopped ↦ inl (canceled, ground (arith, from_path, to_path))
      | inr going ↦ elim (Bool-cases (faults.setup || faults.commit)) [
        | inl fails ↦ inl (io_failed, ground (arith, from_path, to_path))
        | inr runs ↦ elim (Option-cases (files temp)) [
          | inl missing ↦ inl (not_exist, ground (arith, from_path, to_path))
          | inr (content, here) ↦ inr (content, here, ground (arith, from_path, to_path))
        ]
      ]
    ]

move-back :
    (root : CleanPath) (source target temp final : Text) (files : Files) (content : Bytes)
    → path_of root source ≡ ok temp
    → path_of root target ≡ ok final
    → move root no_faults target source (put final content files)
      ≡ (ok tt, put temp content (remove final (put final content files)))
unfolding move
move-back root source target temp final files content from_path to_path =
    ground (arith, from_path, to_path, text_eq_refl final)

module _ (root : CleanPath) (keys : Keys) (faults : CompleteFaults) (now object file owner : ℕ)
    (w : World) (s : UploadSession) (temp final : Text)
    (from_path : path_of root s.temp_key ≡ ok temp)
    (to_path : path_of root (keys.final owner now object) ≡ ok final)
    (apart : text_eq temp final ≡ false) where
  pub finalize-undone :
      (r : Response Body)
      → faults.undo ≡ no_faults
      → w.disk final ≡ none
      → (finalize root keys faults now object file owner s w).0 ≡ err r
      → (q : Text) → (finalize root keys faults now object file owner s w).1.disk q ≡ w.disk q
  unfolding finalize insert_file
  finalize-undone r calm free h q =
      elim (move-cases root faults.disk s.temp_key (keys.final owner now object) temp final w.disk
        from_path to_path) [
          | inl (e, failed) ↦ ground (arith, failed)
          | inr (content, here, moved) ↦ ground (
            arith,
            calm,
            moved,
            move-back root s.temp_key (keys.final owner now object) temp final (remove temp w.disk)
                content from_path to_path,
            there_and_back w.disk temp final content q apart here free,
          )
        ]
