-- ===== src/Tests/DirectRuns.antt =====
-- Parts of a form at work.
use personal_space.Prelude.{
  ℕ, ◌<◌, ◌↔◌, length, some, ◌≡◌, ◌⊎◌, true, false, List, [], ◌∷◌, Text, codes, none, ok, err,
  trim_space, trim_left, is_space, is_empty, text_eq, refl,
}
use personal_space.Storage.Path.{StorageError}
use personal_space.Storage.Files.{no_faults}
use personal_space.Server.Names.{normalize_node_name, delete_code, base}
use personal_space.Server.World.{World}
use personal_space.Uploads.Session.{add_usage, ensure_quota_allows_size}
use personal_space.Uploads.Direct.{
  Part, Sniffed, PartFaults, PartEnd, Uploaded, uploaded, PartRun, taken, upload_parts,
}
use personal_space.Uploads.DirectEffect.{step_of, row, stored, published, upload_part-effect}
use personal_space.Uploads.DirectHang.{pieces_within, upload_parts-hangs_iff}
use personal_space.Tests.Samples.{root, keys, database, no_files}

abbrev site : World
site = record { db = database []; disk = no_files; audit = []; uploaded_total = 0 }

abbrev text : StorageError → Text
text e = codes "failed"

abbrev sniff : List ℕ → Sniffed
sniff bytes = record { mime = none; extension = none }

abbrev calm : PartFaults
calm = record {
  put = no_faults;
  reads = none;
  clean = no_faults;
  disk = no_faults;
  quota = false;
  begin = false;
  insert = false;
  usage = false;
  check = false;
  commit = false;
  audit = false;
}

abbrev part : Part
part = record {
  form_name = codes "file";
  file_name = codes "a.txt";
  chunks = (7 ∷ []) ∷ (8 ∷ 9 ∷ []) ∷ [];
  broken_by = none;
}

abbrev run : PartFaults → PartRun
run faults = record { part = part; now = 600; id = 3; faults = faults }

upload_part-effect_example :
    ((u : Uploaded) × ((step_of root text sniff keys none 1 none (run calm) site).0 ≡ ok u)
      × (u
          ≡ uploaded 3
              (row root text sniff keys none 1 none (run calm) site).name
              (codes "a.txt")
              3)
      × ((stored root text sniff keys none 1 none (run calm) site).0 ≡ ok tt)
      × ((published root text sniff keys none 1 none (run calm) site).0 ≡ ok tt)
      × ((step_of root text sniff keys none 1 none (run calm) site).1.disk
          ≡ (published root text sniff keys none 1 none (run calm) site).1)
      × ((step_of root text sniff keys none 1 none (run calm) site).1.db
          ≡ add_usage 1 3 (record site.db {
            files = row root text sniff keys none 1 none (run calm) site ∷ site.db.files;
          }))
      × (ensure_quota_allows_size false 1
            (step_of root text sniff keys none 1 none (run calm) site).1.db
          ≡ true))
    ⊎ ((e : PartEnd) × ((step_of root text sniff keys none 1 none (run calm) site).0 ≡ err e)
        × ((step_of root text sniff keys none 1 none (run calm) site).1.db ≡ site.db)
        × ((step_of root text sniff keys none 1 none (run calm) site).1.audit ≡ site.audit)
        × ((step_of root text sniff keys none 1 none (run calm) site).1.uploaded_total
            ≡ site.uploaded_total))
unfolding trim_space trim_left is_space
upload_part-effect_example = upload_part-effect root text sniff keys none 1 none (run calm) site

-- A disk that is full after the first piece.
abbrev full_disk : PartFaults
full_disk = record calm { reads = some 1 }

upload_parts-hangs_iff_example :
    ((upload_parts root text sniff keys none 1 none false (run full_disk ∷ []) [] 0 site).0 ≡ none)
    ↔ ((n : ℕ) × (taken root no_faults (keys.temp 1 3) (some 1) ≡ some n)
        × (n < length (pieces_within none 0 part.chunks)))
unfolding normalize_node_name delete_code base trim_space trim_left is_space is_empty text_eq
upload_parts-hangs_iff_example =
    upload_parts-hangs_iff root text sniff keys none 1 none (run full_disk) site false [] 0 refl
      refl refl
