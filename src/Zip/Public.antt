-- ===== src/Zip/Public.antt =====
-- Who gets an archive from publicShareFolderZip of backend/internal/http/shares.go.
use personal_space.Prelude.{
  ℕ, ◌≤◌, ◌≡◌, ◌≢◌, inl, inr, Bool, true, false, Text, some, ok, err, find, Option-cases,
  Result-cases, arith,
}
use personal_space.Database.Rows.{ShareRow, FolderRow, live_folder_of}
use personal_space.Database.Tree.{Below, in_subtree, in_subtree_iff}
use personal_space.Storage.Path.{CleanPath}
use personal_space.Server.World.{World, serve}
use personal_space.Previews.Runtime.{SharingRuntimeSettings, get_sharing_runtime_settings}
use personal_space.Folders.Handlers.{owned_live}
use personal_space.Shares.Access.{Crypto, ShareError, resolve_public_share}
use personal_space.Shares.Public.{bump}
use personal_space.Shares.Browse.{is_folder_target}
use personal_space.Shares.Guarded.{resolve-IsOpen}
use personal_space.Zip.Entries.{Texts, collect_folder_zip_entries}
use personal_space.Zip.Handlers.{ZipFaults, public_share_folder_zip}

module _ (root : CleanPath) (texts : Texts) (broken : Text → Bool) (faults : ZipFaults)
    (crypto : Crypto) (now : ℕ) (token password : Text) (id : ℕ) (w : World) where
  -- What the handler asks of a share, a folder and the settings. It does not ask for downloads that are
  -- left.
  abbrev pub Admits : ShareRow → FolderRow → Type 0
  Admits s f =
      ((resolve_public_share crypto faults.access now token password true w).0 ≡ ok s)
      × ((cfg : SharingRuntimeSettings) × (get_sharing_runtime_settings faults.sharing w.db.settings
            ≡ some cfg)
          × (cfg.public_download_enable ≡ true))
      × (is_folder_target s.target_type ≡ true)
      × (s.allow_download ≡ true)
      × Below (owned_live s.owner) w.db.folders s.target id
      × (find (live_folder_of id s.owner) w.db.folders ≡ some f)

  refused_code :
      (e : ShareError)
      → (resolve_public_share crypto faults.access now token password true w).0 ≡ err e
      → (serve
          (public_share_folder_zip root texts broken faults crypto now token password (some id))
          w).0.code
        ≢ 200
  unfolding public_share_folder_zip
  refused_code e r = ground (arith, r)

  -- A public archive is delivered only for a share of a folder that its token opens, with its password,
  -- that allows downloads, and for a live folder in its tree.
  pub public_share_folder_zip-Admits :
      (serve
          (public_share_folder_zip root texts broken faults crypto now token password (some id))
          w).0.code
        ≡ 200
      → (s : ShareRow) × (f : FolderRow) × Admits s f
  unfolding public_share_folder_zip
  public_share_folder_zip-Admits h =
      elim (Result-cases (resolve_public_share crypto faults.access now token password true w).0) [
        | inr (e, r) ↦ absurd (refused_code e r h)
        | inl (s, r) ↦
            let same = (resolve-IsOpen crypto faults.access now token password w s r).1 in
            elim (Option-cases (find (live_folder_of id s.owner) w.db.folders)) [
              | inl missing ↦ absurd (ground (arith, r, same, missing))
              | inr (f, found) ↦
                  elim (Option-cases (get_sharing_runtime_settings faults.sharing w.db.settings)) [
                    | inl missing ↦ absurd (ground (arith, r, same, missing))
                    | inr (cfg, c) ↦
                        let inside : in_subtree (owned_live s.owner) w.db.folders s.target id
                            ≡ true =
                          ground (arith, r, same, found, c) in
                        (
                          s,
                          f,
                          (
                            r,
                            (cfg, c, ground (arith, r, same, found, c)),
                            ground (arith, r, same, found, c),
                            ground (arith, r, same, found, c),
                            (in_subtree_iff (owned_live s.owner) w.db.folders s.target id).0 inside,
                            found,
                          ),
                        )
                  ]
            ]
      ]

  -- A share that has used up its downloads still delivers archives, and its counter goes on past the
  -- limit: nothing in the way to the archive looks at it.
  pub public_share_folder_zip-exhausted :
      (s : ShareRow) (f : FolderRow) (max : ℕ)
      → Admits s f
      → s.max_downloads ≡ some max
      → max ≤ s.download_count
      → faults.load ≡ false
      → faults.tree ≡ false
      → faults.collect ≡ false
      → faults.bump ≡ false
      → let (answer, after) =
          serve
            (public_share_folder_zip root texts broken faults crypto now token password (some id))
            w in
        (answer.code ≡ 200) × (after.db ≡ (bump false s.id w).db)
  unfolding public_share_folder_zip collect_folder_zip_entries
  public_share_folder_zip-exhausted s f max (r, (cfg, c, on), folder, allowed, below, found) limit
        spent load tree collect counts =
      let same = (resolve-IsOpen crypto faults.access now token password w s r).1 in
      let inside : in_subtree (owned_live s.owner) w.db.folders s.target id ≡ true =
        (in_subtree_iff (owned_live s.owner) w.db.folders s.target id).1 below in
      (ground (arith, r, same, c, inside, found), ground (arith, r, same, c, inside, found))
