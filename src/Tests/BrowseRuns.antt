-- ===== src/Tests/BrowseRuns.antt =====
-- A shared folder at work: a change of its share, and its listing.
use personal_space.Prelude.{
  update_where, ◌&&◌, ◌==◌, ℕ, ◌≡◌, ◌≢◌, ◌⊎◌, refl, Bool, true, false, List, [], ◌∷◌, Text, codes,
  none, some, ok, Option, text_eq, trim_space, trim_left, is_space, is_empty, pos,
}
use personal_space.Database.Rows.{Database, FolderRow, FileRow, ShareRow, live_folder_of}
use personal_space.Database.Rows
use personal_space.Database.Tree.{Below, live, in_subtree, in_tree}
use personal_space.Storage.Files.{put}
use personal_space.Settings.Table.{setting}
use personal_space.Server.World.{World, serve}
use personal_space.Previews.Runtime.{get_sharing_runtime_settings, bool_setting}
use personal_space.Uploads.Init.{given}
use personal_space.Shares.Access.{Crypto, resolve_public_share}
use personal_space.Shares.Create.{enforce_share_policy_for_create}
use personal_space.Shares.Manage.{PatchFaults, PatchRequest, patch_share}
use personal_space.Shares.Managed.{
  IsChosen, IsKept, IsHashed, IsAhead, IsPositive, patch_share-effect,
}
use personal_space.Shares.Browse.{
  BrowseFaults, is_folder_target, items, share_items, public_share_items,
}
use personal_space.Shares.Browsed.{All, public_share_items-200}
use personal_space.Shares.Roundtrip
use personal_space.Tests.Samples.{temp_key, temp, database, no_files}

abbrev pub plain : Crypto
plain = record {
  hash_token = λ t. b'#' ∷ t;
  hash_password = λ p. some (b'$' ∷ p);
  verify_password = λ hash p. text_eq hash (b'$' ∷ p);
}

abbrev pub folder_row : ℕ → Option ℕ → FolderRow
folder_row id parent = record {
  id = id;
  owner = 1;
  parent = parent;
  name = codes "f";
  updated_at = 500;
  deleted_at = none;
}

abbrev pub note : FileRow
note = record {
  id = 3;
  owner = 1;
  folder = some 2;
  name = codes "a.txt";
  original_name = codes "a.txt";
  storage_key = temp_key;
  size = 2;
  mime = some (codes "text/plain");
  extension = none;
  updated_at = 500;
  deleted_at = none;
}

abbrev pub link : ShareRow
link = record {
  id = 4;
  owner = 1;
  target_type = Rows.folder;
  target = 1;
  token_hash = codes "#tok";
  password_hash = some (codes "$pw");
  expires_at = some 900;
  allow_preview = true;
  allow_download = true;
  allow_folder_browse = true;
  max_downloads = some 1;
  download_count = 1;
  is_revoked = false;
}

abbrev pub folders : List FolderRow
folders = folder_row 1 none ∷ folder_row 2 (some 1) ∷ []

abbrev pub site : World
site = record {
  db = record (database []) { folders = folders; files = note ∷ []; shares = link ∷ [] };
  disk = put temp (7 ∷ 8 ∷ []) no_files;
  audit = [];
  uploaded_total = 0;
}

abbrev patch_calm : PatchFaults
patch_calm = record {
  load = false;
  policy = record {
    target = false;
    token = false;
    sharing = false;
    preview = false;
    insert = false;
    audit = false;
  };
  update = false;
  audit = false;
  reload = false;
}

abbrev wider : PatchRequest
wider = record {
  password = none;
  expires_at = none;
  clear_password = some true;
  clear_expiration = none;
  allow_preview = some false;
  allow_download = none;
  allow_folder_browse = none;
  max_downloads = some (pos 5);
  clear_max_downloads = none;
  is_revoked = none;
}

patch_share-effect_example :
    let (answer, after) =
      serve (patch_share plain patch_calm 600 (some 1) (some 4) (some wider)) site in
    (answer.code ≡ 200)
      × ((hash : Option Text) × (expires limit : Option ℕ) × (preview download browse
            revoked : Bool)
          × IsChosen (IsHashed plain) none (some true) (some (codes "$pw")) hash
          × IsChosen (IsAhead 600) none none (some 900) expires
          × IsChosen IsPositive (some (pos 5)) none (some 1) limit
          × IsKept (some false) true preview
          × IsKept none true download
          × IsKept none true browse
          × IsKept none false revoked
          × ((revoked ≡ true)
              ⊎ (enforce_share_policy_for_create patch_calm.policy preview download site.db.settings
                  ≡ ok tt))
          × (after.db ≡ record site.db {
            shares =
                update_where
                  (λ r. r.id == 4 && r.owner == 1)
                  (λ r. record r {
                    password_hash = hash;
                    expires_at = expires;
                    allow_preview = preview;
                    allow_download = download;
                    allow_folder_browse = browse;
                    max_downloads = limit;
                    is_revoked = revoked;
                  })
                  site.db.shares;
          }))
    ⊎ (answer.code ≢ 200) × (after ≡ site)
patch_share-effect_example = patch_share-effect plain patch_calm 600 4 1 wider site link refl

abbrev browse_calm : BrowseFaults
browse_calm = record {
  access = Roundtrip.calm;
  name = false;
  audit = false;
  tree = false;
  folders = false;
  files = false;
}

abbrev pub collate : Text → Text → Bool
collate a b = false

items_ok :
    (serve
      (public_share_items plain browse_calm 600 collate (codes "tok") (codes "pw") (given 2))
      site).0.code
    ≡ 200
unfolding public_share_items resolve_public_share get_sharing_runtime_settings bool_setting setting
    in_subtree in_tree trim_space trim_left is_space is_empty text_eq
items_ok = refl

public_share_items-200_example :
    (s : ShareRow) × (p : ℕ) × ((resolve_public_share plain Roundtrip.calm 600
        (codes "tok")
        (codes "pw")
        true
        site).0
      ≡ ok s)
    × (is_folder_target s.target_type ≡ true)
    × (s.allow_folder_browse ≡ true)
    × ((p ≡ s.target) ⊎ Below live site.db.folders s.target p)
    × ((serve
          (public_share_items plain browse_calm 600 collate (codes "tok") (codes "pw") (given 2))
          site).0.body
        ≡ items (share_items collate p site.db))
    × All (λ i. i.parent ≡ some p) (share_items collate p site.db)
public_share_items-200_example =
    public_share_items-200 plain browse_calm 600 collate (codes "tok") (codes "pw") (given 2) site
      items_ok
