-- ===== src/Tests/ZipRuns.antt =====
-- The archive of a shared folder, and the preview of a text.
use personal_space.Prelude.{
  ℕ, ◌≡◌, ◌↔◌, refl, true, false, List, [], ◌∷◌, map, codes, none, some, arith, text_eq, trim_space,
  trim_left, is_space, is_empty,
}
use personal_space.Database.Rows.{FolderRow, FileRow, ShareRow}
use personal_space.Database.Tree.{here, there, base, step, Below, in_subtree, in_tree}
use personal_space.Storage.Files.{no_faults}
use personal_space.Settings.Table.{setting}
use personal_space.Server.World.{serve}
use personal_space.Previews.Runtime.{get_sharing_runtime_settings, bool_setting}
use personal_space.Previews.Content.{ContentFaults, CsvReader}
use personal_space.Folders.Handlers.{owned_live}
use personal_space.Folders.Deletion.{InFiles}
use personal_space.Folders.Sort.{slice_stable}
use personal_space.Shares.Access.{resolve_public_share}
use personal_space.Shares.Public.{bump}
use personal_space.Shares.Roundtrip
use personal_space.Zip.Entries.{
  Texts, ZipRow, ZipFileEntry, entry_of, owned_file, row_before, collect_folder_zip_entries,
}
use personal_space.Zip.Stream.{write_members}
use personal_space.Zip.Handlers.{ZipFaults, public_share_folder_zip}
use personal_space.Zip.Collected.{Listed, collect_folder_zip_entries_iff}
use personal_space.Zip.Confined.{Holds, write_members-Holds}
use personal_space.Zip.Public.{
  Admits, public_share_folder_zip-Admits, public_share_folder_zip-exhausted,
}
use personal_space.Tests.Samples.{root, temp_key}
use personal_space.Tests.BrowseRuns.{plain, site, link, folder_row, collate}

abbrev texts : Texts
texts = record { before = collate; spell = λ id. codes "id" }

collect_folder_zip_entries_iff_example :
    (rows : List ZipRow) × (collect_folder_zip_entries texts false 1 1 site.db
      ≡ some (map (entry_of texts.spell) (slice_stable (row_before texts) rows)))
    × ((f : FileRow)
        → Listed f rows ↔ (
            InFiles f site.db.files
            × (owned_file 1 f ≡ true)
            × ((x : ℕ) × (f.folder ≡ some x) × Below (owned_live 1) site.db.folders 1 x)))
collect_folder_zip_entries_iff_example = collect_folder_zip_entries_iff texts 1 1 site.db

abbrev entries : List ZipFileEntry
entries =
    record { storage_key = temp_key; file_name = codes "a.txt"; relative_dir = codes "f/../g" }
    ∷ record { storage_key = temp_key; file_name = codes "b.txt"; relative_dir = codes "../.." }
    ∷ []

write_members-Holds_example :
    let (members, complete) = write_members root no_faults (λ name. false) entries site.disk in
    Holds root no_faults (λ name. false) site.disk entries members complete
write_members-Holds_example = write_members-Holds root no_faults (λ name. false) site.disk entries

abbrev calm : ZipFaults
calm = record {
  load = false;
  collect = false;
  read = no_faults;
  access = Roundtrip.calm;
  sharing = false;
  tree = false;
  audit = false;
  bump = false;
}

zip_ok :
    (serve
      (public_share_folder_zip root texts
        (λ name. false)
        calm
        plain
        600
        (codes "tok")
        (codes "pw")
        (some 2))
      site).0.code
    ≡ 200
unfolding public_share_folder_zip resolve_public_share get_sharing_runtime_settings bool_setting
    setting in_subtree in_tree collect_folder_zip_entries trim_space trim_left is_space is_empty
    text_eq
zip_ok = refl

public_share_folder_zip-Admits_example :
    (s : ShareRow) × (f : FolderRow) × Admits root texts
      (λ name. false)
      calm
      plain
      600
      (codes "tok")
      (codes "pw")
      2
      site
      s
      f
public_share_folder_zip-Admits_example =
    public_share_folder_zip-Admits root texts (λ name. false) calm plain 600 (codes "tok")
      (codes "pw") 2 site zip_ok

link-Admits :
    Admits root texts
      (λ name. false)
      calm
      plain
      600
      (codes "tok")
      (codes "pw")
      2
      site
      link
      (folder_row 2 (some 1))
unfolding resolve_public_share get_sharing_runtime_settings bool_setting setting trim_space
    trim_left is_space is_empty text_eq
link-Admits = (
  refl,
  (
    record { enabled = true; public_preview_enabled = true; public_download_enable = true },
    refl,
    refl,
  ),
  refl,
  refl,
  (
    1,
    step 2 (folder_row 2 (some 1)) 1 0 (base 1 (folder_row 1 none) here refl refl refl) (there here)
        refl refl refl,
  ),
  refl,
)

public_share_folder_zip-exhausted_example :
    let (answer, after) =
      serve
        (public_share_folder_zip root texts
          (λ name. false)
          calm
          plain
          600
          (codes "tok")
          (codes "pw")
          (some 2))
        site in
    (answer.code ≡ 200) × (after.db ≡ (bump false 4 site).db)
public_share_folder_zip-exhausted_example =
    public_share_folder_zip-exhausted root texts (λ name. false) calm plain 600 (codes "tok")
      (codes "pw") 2 site link (folder_row 2 (some 1)) 1 link-Admits refl (omega arith) refl refl
      refl refl

abbrev content_calm : ContentFaults
content_calm = record {
  load = false;
  settings = false;
  text_limit = false;
  row_limit = false;
  opening = no_faults;
  read = false;
}

abbrev csv : CsvReader
csv delimiter bytes = (bytes ∷ []) ∷ []
