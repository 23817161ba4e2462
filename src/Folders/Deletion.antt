-- ===== src/Folders/Deletion.antt =====
-- deleteFolder of backend/internal/http/folders.go covers the tree below the folder.
use personal_space.Prelude.{
  ℕ, ◌≡◌, refl, ◌∙◌, ◌⊎◌, inl, inr, Bool, true, false, some, List, [], ◌∷◌, update_where,
  Bool-cases, Option-cases, arith,
}
use personal_space.Database.Rows.{FolderRow, FileRow, is_live}
use personal_space.Database.Tree.{
  Row, here, there, InTree, base, step, Below, in_subtree, in_subtree_iff,
}
use personal_space.Server.World.{World, serve}
use personal_space.Nodes.Handlers.{mark_deleted}
use personal_space.Folders.Handlers.{owned_live}
use personal_space.Folders.Delete.{
  DeleteFaults, delete_folder, delete_folder_tx, drop_folders, drop_files, mark_folder, owned,
  is_child_file,
}
use personal_space.Folders.Acyclic.{Row-update}

-- A file of a table.
abbrev pub InFiles : FileRow → List FileRow → Type 0
InFiles f [] = ⊥
InFiles f (g ∷ files) = (f ≡ g) ⊎ InFiles f files

InFiles-update :
    (test : FileRow → Bool) (change : FileRow → FileRow) (files : List FileRow) (f : FileRow)
    → InFiles f (update_where test change files)
    → (g : FileRow) × InFiles g files
      × ((test g ≡ true) × (f ≡ change g) ⊎ (test g ≡ false) × (f ≡ g))
InFiles-update test change [] f r = absurd r
InFiles-update test change (g ∷ files) f (inl e) = elim (Bool-cases (test g)) [
  | inl holds ↦ (g, inl refl, inl (holds, ground (arith, holds)))
  | inr fails ↦ (g, inl refl, inr (fails, ground (arith, fails)))
]
InFiles-update test change (g ∷ files) f (inr r) =
    let (k, s, t) = InFiles-update test change files f r in (k, inr s, t)

module _ (now owner id : ℕ) where
  -- The second query starts from the same tree: deleting keeps the ids, owners and parents.
  Row-kept :
      (test : FolderRow → Bool) (rows : List FolderRow) (f : FolderRow)
      → Row rows f
      → (g : FolderRow) × Row (update_where test (mark_folder now) rows) g
        × (g.id ≡ f.id)
        × (g.owner ≡ f.owner)
        × (g.parent ≡ f.parent)
  Row-kept test [] f r = elim r [ ]
  Row-kept test (f ∷ rows) _ here = elim (Bool-cases (test f)) [
    | inl holds ↦ (mark_folder now f, rw holds here, refl, refl, refl)
    | inr fails ↦ (f, rw fails here, refl, refl, refl)
  ]
  Row-kept test (k ∷ rows) f (there r) =
      let (g, s, i, o, p) = Row-kept test rows f r in (g, there s, i, o, p)

  drop-Below :
      (rows : List FolderRow) (d x : ℕ)
      → InTree (owned_live owner) rows id d x
      → InTree (owned owner) (drop_folders now id owner rows) id d x
  unfolding drop_folders
  drop-Below rows _ x (base _ f r same top holds) =
      let (g, s, i, o, p) = Row-kept (λ f. in_subtree (owned_live owner) rows id f.id) rows f r in
      base x g s (i ∙ same) top (ground arith)
  drop-Below rows _ x (step _ f q d t r same parent holds) =
      let (g, s, i, o, p) = Row-kept (λ f. in_subtree (owned_live owner) rows id f.id) rows f r in
      step x g q d (drop-Below rows d q t) s (i ∙ same) (p ∙ parent) (ground arith)

  was :
      (rows : List FolderRow) (f : FolderRow)
      → Row (drop_folders now id owner rows) f
      → ((k : FolderRow) × Row rows k
          × (in_subtree (owned_live owner) rows id k.id ≡ true)
          × (f ≡ mark_folder now k))
        ⊎ Row rows f × (in_subtree (owned_live owner) rows id f.id ≡ false)
  unfolding drop_folders
  was rows f = Row-update (λ f. in_subtree (owned_live owner) rows id f.id) (mark_folder now) rows f

  dropped_folder :
      (rows : List FolderRow) (x : ℕ) (f : FolderRow)
      → Below (owned_live owner) rows id x
      → Row (drop_folders now id owner rows) f
      → f.id ≡ x
      → is_live f.deleted_at ≡ false
  dropped_folder rows x f b r e = elim (was rows f r) [
    | inl (k, s, t, same) ↦ ground arith
    | inr (s, t) ↦
        let found : in_subtree (owned_live owner) rows id x ≡ true =
          (in_subtree_iff (owned_live owner) rows id x).1 b in
        absurd (ground (arith, rw e at t))
  ]

  dropped_file :
      (rows : List FolderRow) (files : List FileRow) (x : ℕ) (f : FileRow)
      → Below (owned_live owner) rows id x
      → InFiles f (drop_files now id owner (drop_folders now id owner rows) files)
      → f.owner ≡ owner
      → f.folder ≡ some x
      → is_live f.deleted_at ≡ false
  unfolding drop_files
  dropped_file rows files x f (d, b) r mine e =
      let after = drop_folders now id owner rows in
      let (g, s, t) = InFiles-update (is_child_file id owner after) (mark_deleted now) files f r in
      let found : in_subtree (owned owner) after id x ≡ true =
        (in_subtree_iff (owned owner) after id x).1 (d, drop-Below rows d x b) in
      ground (arith, t)

  -- The rows of the folders after the deletion: those of the tree are marked, the others as before.
  abbrev pub AreDropped : List FolderRow → List FolderRow → List FolderRow → Type 0
  AreDropped rows [] [] = Unit
  AreDropped rows [] (g ∷ gs) = ⊥
  AreDropped rows (f ∷ fs) [] = ⊥
  AreDropped rows (f ∷ fs) (g ∷ gs) =
      (Below (owned_live owner) rows id f.id
          × (g ≡ record f { deleted_at = some now; updated_at = now })
        ⊎ (Below (owned_live owner) rows id f.id → ⊥) × (g ≡ f))
      × AreDropped rows fs gs

  abbrev pub AreFilesDropped : List FolderRow → List FileRow → List FileRow → Type 0
  AreFilesDropped rows [] [] = Unit
  AreFilesDropped rows [] (g ∷ gs) = ⊥
  AreFilesDropped rows (f ∷ fs) [] = ⊥
  AreFilesDropped rows (f ∷ fs) (g ∷ gs) =
      ((g ≡ f)
        ⊎ (x : ℕ) × (f.owner ≡ owner)
          × (is_live f.deleted_at ≡ true)
          × (f.folder ≡ some x)
          × Below (owned owner) rows id x
          × (g ≡ mark_deleted now f))
      × AreFilesDropped rows fs gs

  update-AreDropped :
      (rows fs : List FolderRow)
      → AreDropped rows fs
          (update_where (λ f. in_subtree (owned_live owner) rows id f.id) (mark_folder now) fs)
  update-AreDropped rows [] = tt
  update-AreDropped rows (f ∷ fs) =
      let same = in_subtree_iff (owned_live owner) rows id f.id in
      elim (Bool-cases (in_subtree (owned_live owner) rows id f.id)) [
        | inl holds ↦ rw holds (inl (same.0 holds, refl), update-AreDropped rows fs)
        | inr fails ↦ rw fails (inr (λ b. cc (same.1 b, fails), refl), update-AreDropped rows fs)
      ]

  drop_folders-AreDropped :
      (rows : List FolderRow) → AreDropped rows rows (drop_folders now id owner rows)
  unfolding drop_folders
  drop_folders-AreDropped rows = update-AreDropped rows rows

  update-AreFilesDropped :
      (rows : List FolderRow) (files : List FileRow)
      → AreFilesDropped rows files (drop_files now id owner rows files)
  unfolding drop_files
  update-AreFilesDropped rows [] = tt
  update-AreFilesDropped rows (f ∷ files) = elim (Bool-cases (is_child_file id owner rows f)) [
    | inr fails ↦ rw fails (inl refl, update-AreFilesDropped rows files)
    | inl holds ↦ elim (Option-cases f.folder) [
      | inl missing ↦ absurd (ground (arith, holds, missing))
      | inr (x, e) ↦
          let found : in_subtree (owned owner) rows id x ≡ true = ground (arith, holds, e) in
          rw holds (
            inr (
              x,
              ground (arith, holds),
              ground (arith, holds),
              e,
              (in_subtree_iff (owned owner) rows id x).0 found,
              refl,
            ),
            update-AreFilesDropped rows files,
          )
    ]
  ]

  module _ (faults : DeleteFaults) (w : World)
      (done : (serve (delete_folder faults now (some owner) (some id)) w).0.code ≡ 200) where
    deleted-db : (serve (delete_folder faults now (some owner) (some id)) w).1.db ≡ record w.db {
      folders = drop_folders now id owner w.db.folders;
      files = drop_files now id owner (drop_folders now id owner w.db.folders) w.db.files;
    }
    unfolding delete_folder delete_folder_tx
    deleted-db = ground (arith, done)

    -- A deletion answered 200 leaves no folder of the tree live, the folder itself and all that are
    -- below it through live folders, and no live file of the owner in one of them. Row by row, a folder
    -- of the tree is marked as deleted and any other is as before; a file is as before, or it was a
    -- live one of the owner in a folder of the tree, deleted folders included, and is marked as deleted.
    pub delete_folder-200 :
        let after = (serve (delete_folder faults now (some owner) (some id)) w).1 in
        ((x : ℕ)
          → Below (owned_live owner) w.db.folders id x
          → ((f : FolderRow) → Row after.db.folders f → f.id ≡ x → is_live f.deleted_at ≡ false)
            × ((f : FileRow)
                → InFiles f after.db.files
                → f.owner ≡ owner
                → f.folder ≡ some x
                → is_live f.deleted_at ≡ false))
        × AreDropped w.db.folders w.db.folders after.db.folders
        × AreFilesDropped after.db.folders w.db.files after.db.files
        × (after.db.users ≡ w.db.users)
    delete_folder-200 = (
      (λ x b. (
        (λ f r. dropped_folder w.db.folders x f b (rw deleted-db at r)),
        (λ f r. dropped_file w.db.folders w.db.files x f b (rw deleted-db at r)),
      )),
      rw deleted-db (drop_folders-AreDropped w.db.folders),
      rw deleted-db (update-AreFilesDropped (drop_folders now id owner w.db.folders) w.db.files),
      rw deleted-db refl,
    )
