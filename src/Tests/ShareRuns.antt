-- ===== src/Tests/ShareRuns.antt =====
-- Share links at work.
use personal_space.Prelude.{
  ℕ, ◌+◌, ◌≤◌, ◌≡◌, refl, true, false, [], ◌∷◌, Text, codes, Option, none, some, ok, trim_space,
  trim_left, is_space, is_empty, text_eq, text_eq_refl, arith,
}
use personal_space.Database.Rows.{Database, FileRow, FolderRow, ShareRow}
use personal_space.Database.Rows
use personal_space.Storage.Files.{no_faults, put, stat}
use personal_space.Settings.Table.{setting}
use personal_space.Server.World.{World, serve}
use personal_space.Previews.Runtime.{
  bool_setting, get_sharing_runtime_settings, get_preview_runtime_settings,
}
use personal_space.Downloads.Stream.{send}
use personal_space.Shares.Access.{Crypto, resolve_public_share}
use personal_space.Shares.Create.{
  CreateRequest, CreateFaults, password_hash_of, enforce_share_policy_for_create, new_share,
  create_share,
}
use personal_space.Shares.Public.{PublicFaults}
use personal_space.Shares.Limit.{Download, share_at, run_downloads, run_downloads-limit}
use personal_space.Shares.Roundtrip
use personal_space.Shares.Roundtrip.{Verifies, visitor_password, create-resolve}
use personal_space.Tests.Samples.{root, database, no_files}

-- Hashes that are the text behind a letter.
abbrev plain : Crypto
plain = record {
  hash_token = λ t. b'#' ∷ t;
  hash_password = λ p. some (b'$' ∷ p);
  verify_password = λ hash p. text_eq hash (b'$' ∷ p);
}

abbrev shared_file : FileRow
shared_file = record {
  id = 3;
  owner = 1;
  folder = none;
  name = codes "a.txt";
  original_name = codes "a.txt";
  storage_key = codes "a.bin";
  size = 2;
  mime = none;
  extension = none;
  updated_at = 500;
  deleted_at = none;
}

abbrev link : ℕ → ShareRow
link downloads = record {
  id = 4;
  owner = 1;
  target_type = Rows.file;
  target = 3;
  token_hash = codes "#tok";
  password_hash = some (codes "$pw");
  expires_at = some 900;
  allow_preview = true;
  allow_download = true;
  allow_folder_browse = true;
  max_downloads = some 1;
  download_count = downloads;
  is_revoked = false;
}

abbrev path : Text
path = codes "/data/a.bin"

abbrev site : World
site = record {
  db = record (database []) { files = shared_file ∷ []; shares = link 0 ∷ [] };
  disk = put path (7 ∷ 8 ∷ []) no_files;
  audit = [];
  uploaded_total = 0;
}

abbrev faults : PublicFaults
faults = record {
  access = Roundtrip.calm;
  sharing = false;
  load = false;
  gate = record { settings = false; variant = false };
  send = record { stat = no_faults; read = no_faults };
  audit = false;
  bump = false;
}

abbrev request : Download
request = record { password = codes "pw"; file = 3; query = []; header = [] }

named : share_at plain (codes "tok") site ≡ some (link 0)
unfolding trim_space trim_left is_space is_empty text_eq
named = refl

run_downloads-limit_example :
    (0 + (run_downloads root plain faults 600 (codes "tok") (request ∷ request ∷ []) site).0 ≤ 1)
    × (share_at plain
          (codes "tok")
          (run_downloads root plain faults 600 (codes "tok") (request ∷ request ∷ []) site).1
        ≡ some (
            link (
              0
              + (run_downloads root plain faults 600
                  (codes "tok")
                  (request ∷ request ∷ [])
                  site).0)))
run_downloads-limit_example =
    run_downloads-limit root plain faults 600 (codes "tok") (request ∷ request ∷ []) site (link 0) 1
      refl named refl (omega arith)

abbrev request_share : CreateRequest
request_share = record {
  target_type = some Rows.file;
  target = some 3;
  password = some (codes "pw");
  expires_at = some 900;
  allow_preview = none;
  allow_download = none;
  allow_folder_browse = some false;
  max_downloads = none;
}

abbrev create_calm : CreateFaults
create_calm = record {
  target = false;
  token = false;
  sharing = false;
  preview = false;
  insert = false;
  audit = false;
}

create_ok :
    (serve
      (create_share plain create_calm 600 6 (codes "new") (some 1) (some request_share))
      site).0.code
    ≡ 201
unfolding create_share password_hash_of enforce_share_policy_for_create get_sharing_runtime_settings
    get_preview_runtime_settings bool_setting setting trim_space trim_left is_space is_empty text_eq
create_ok = refl

plain-Verifies : Verifies plain
plain-Verifies p hash e = ground (arith, text_eq_refl hash)

new_plain : trim_space (codes "new") ≡ codes "new"
unfolding trim_space trim_left is_space
new_plain = refl

pw_plain : trim_space (codes "pw") ≡ codes "pw"
unfolding trim_space trim_left is_space
pw_plain = refl

create-resolve_example :
    (hash : Option Text) × (password_hash_of plain (some (codes "pw")) ≡ some hash)
    × ((resolve_public_share plain Roundtrip.calm 700
          (codes "new")
          (codes "pw")
          true
          (serve
            (create_share plain create_calm 600 6 (codes "new") (some 1) (some request_share))
            site).1).0
        ≡ ok (new_share plain 6 1 (codes "new") Rows.file 3 hash request_share))
unfolding is_empty
create-resolve_example =
    create-resolve plain create_calm 600 6 1 (codes "new") request_share site Rows.file 3 refl refl
      700 plain-Verifies new_plain refl pw_plain refl create_ok
