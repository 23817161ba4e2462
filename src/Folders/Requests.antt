-- ===== src/Folders/Requests.antt =====
-- The handlers of backend/internal/http/folders.go one after the other: the folders stay a forest.
use personal_space.Prelude.{
  ℕ, ◌≡◌, ◌≢◌, refl, ◌⊎◌, inl, inr, Bool, true, Text, Option, none, some, ◌∷◌, ok, any,
  update_where, Bool-cases, arith,
}
use personal_space.Database.Rows.{live_folder_of}
use personal_space.Database.Tree.{in_subtree, any-Row}
use personal_space.Server.Names.{normalize_node_name}
use personal_space.Server.World.{World, serve}
use personal_space.Uploads.Init.{OptionalId, absent, invalid, given}
use personal_space.Uploads.Session.{validate_parent_ownership}
use personal_space.Folders.Handlers.{
  FolderFaults, CreateBody, owned_live, new_folder, move_to, insert_folder, update_folder,
  create_folder, rename_folder, move_folder,
}
use personal_space.Folders.Delete.{
  DeleteFaults, delete_folder, delete_folder_tx, drop_folders, mark_folder,
}
use personal_space.Folders.Acyclic.{
  NoCycle, IsFresh, NoCycle-sub, Row-update, moved-NoCycle, unmoved-NoCycle, added-NoCycle,
}

-- A request on the folders, with what goes wrong in it. The uuid of a new folder is new.
pub data FolderStep (w : World) : World → Type 0 where
  creates :
      (faults : FolderFaults) (now id : ℕ) (user : Option ℕ) (body : Option CreateBody)
      → IsFresh id w.db.folders
      → FolderStep w (serve (create_folder faults now id user body) w).1
  renames :
      (faults : FolderFaults) (now : ℕ) (user id : Option ℕ) (body : Option Text)
      → FolderStep w (serve (rename_folder faults now user id body) w).1
  moves :
      (faults : FolderFaults) (now : ℕ) (user id : Option ℕ) (body : Option OptionalId)
      → FolderStep w (serve (move_folder faults now user id body) w).1
  deletes :
      (faults : DeleteFaults) (now : ℕ) (user id : Option ℕ)
      → FolderStep w (serve (delete_folder faults now user id) w).1

pub data FolderRun (start : World) : World → Type 0 where
  done : FolderRun start start
  next : {w after : World} → FolderRun start w → FolderStep w after → FolderRun start after

abbrev id_of : OptionalId → Option ℕ
id_of absent = none
id_of invalid = none
id_of (given p) = some p

create-folders :
    (faults : FolderFaults) (now id owner : ℕ) (body : CreateBody) (parent : OptionalId) (w : World)
    → body.parent ≡ parent
    → let after = (serve (create_folder faults now id (some owner) (some body)) w).1 in
      (after.db.folders ≡ w.db.folders)
      ⊎ (validate_parent_ownership faults.parent owner (id_of parent) w.db ≡ ok tt)
        × (after.db.folders
            ≡ new_folder now id owner (id_of parent) (normalize_node_name body.name) ∷ w.db.folders)
unfolding create_folder insert_folder
create-folders faults now id owner body absent w e = ground (arith, e)
create-folders faults now id owner body invalid w e = ground (arith, e)
create-folders faults now id owner body (given p) w e = ground (arith, e)

-- A parent that was validated is no new folder.
valid_parent :
    (fault : Bool) (owner new : ℕ) (parent : Option ℕ) (w : World)
    → IsFresh new w.db.folders
    → validate_parent_ownership fault owner parent w.db ≡ ok tt
    → parent ≢ some new
unfolding validate_parent_ownership
valid_parent fault owner new none w fresh h e = cc
valid_parent fault owner new (some p) w fresh h e =
    elim (Bool-cases (any (live_folder_of p owner) w.db.folders)) [
      | inr missing ↦ ground (arith, missing)
      | inl found ↦
          let (f, r, own) = any-Row (live_folder_of p owner) w.db.folders found in
          ground (arith, fresh f r)
    ]

rename-folders :
    (faults : FolderFaults) (now id owner : ℕ) (name : Text) (w : World)
    → let after = (serve (rename_folder faults now (some owner) (some id) (some name)) w).1 in
      (after.db.folders ≡ w.db.folders)
      ⊎ (after.db.folders
          ≡ update_where
              (live_folder_of id owner)
              (λ f. record f { name = normalize_node_name name; updated_at = now })
              w.db.folders)
unfolding rename_folder update_folder
rename-folders faults now id owner name w = ground arith

move-folders :
    (faults : FolderFaults) (now id owner : ℕ) (w : World) (parent : OptionalId)
    → let after = (serve (move_folder faults now (some owner) (some id) (some parent)) w).1 in
      (after.db.folders ≡ w.db.folders)
      ⊎ (after.db.folders
          ≡ update_where (live_folder_of id owner) (move_to now (id_of parent)) w.db.folders)
unfolding move_folder update_folder
move-folders faults now id owner w absent = ground arith
move-folders faults now id owner w invalid = ground arith
move-folders faults now id owner w (given p) = ground arith

move-checked :
    (faults : FolderFaults) (now id owner : ℕ) (w : World) (p : ℕ)
    → in_subtree (owned_live owner) w.db.folders id p ≡ true
    → (serve (move_folder faults now (some owner) (some id) (some (given p))) w).1.db.folders
      ≡ w.db.folders
unfolding move_folder
move-checked faults now id owner w p e = ground (arith, e)

delete-folders :
    (faults : DeleteFaults) (now id owner : ℕ) (w : World)
    → let after = (serve (delete_folder faults now (some owner) (some id)) w).1 in
      (after.db.folders ≡ w.db.folders)
      ⊎ (after.db.folders ≡ drop_folders now id owner w.db.folders)
unfolding delete_folder delete_folder_tx
delete-folders faults now id owner w = ground arith

module _ (u : ℕ) (w : World) (h : NoCycle u w.db.folders) where
  created-NoCycle :
      (faults : FolderFaults) (now id : ℕ) (user : Option ℕ) (body : Option CreateBody)
      → IsFresh id w.db.folders
      → NoCycle u (serve (create_folder faults now id user body) w).1.db.folders
  unfolding create_folder
  created-NoCycle faults now id none body fresh = h
  created-NoCycle faults now id (some owner) none fresh = h
  created-NoCycle faults now id (some owner) (some body) fresh =
      elim (create-folders faults now id owner body body.parent w refl) [
        | inl same ↦ rw same h
        | inr (valid, e) ↦ rw e (
            added-NoCycle u now owner id (normalize_node_name body.name) (id_of body.parent)
              w.db.folders fresh
              (valid_parent faults.parent owner id (id_of body.parent) w fresh valid) h)
      ]

  renamed-NoCycle :
      (faults : FolderFaults) (now : ℕ) (user id : Option ℕ) (body : Option Text)
      → NoCycle u (serve (rename_folder faults now user id body) w).1.db.folders
  unfolding rename_folder
  renamed-NoCycle faults now none id body = h
  renamed-NoCycle faults now (some owner) none body = h
  renamed-NoCycle faults now (some owner) (some id) none = h
  renamed-NoCycle faults now (some owner) (some id) (some name) =
      elim (rename-folders faults now id owner name w) [
        | inl same ↦ rw same h
        | inr e ↦ rw e (
            NoCycle-sub u w.db.folders _
              (λ g r live.
                elim (Row-update (live_folder_of id owner)
                  (λ f. record f { name = normalize_node_name name; updated_at = now }) w.db.folders
                  g r) [
                    | inl (k, s, t, same) ↦ (k, s, ground arith, ground arith, ground arith)
                    | inr (s, t) ↦ (g, s, refl, refl, live)
                  ])
              h)
      ]

  moved_folder-NoCycle :
      (faults : FolderFaults) (now : ℕ) (user id : Option ℕ) (body : Option OptionalId)
      → NoCycle u (serve (move_folder faults now user id body) w).1.db.folders
  unfolding move_folder
  moved_folder-NoCycle faults now none id body = h
  moved_folder-NoCycle faults now (some owner) none body = h
  moved_folder-NoCycle faults now (some owner) (some id) none = h
  moved_folder-NoCycle faults now (some owner) (some id) (some invalid) = h
  moved_folder-NoCycle faults now (some owner) (some id) (some absent) =
      elim (move-folders faults now id owner w absent) [
        | inl same ↦ rw same h
        | inr e ↦ rw e (unmoved-NoCycle u owner id now w.db.folders h)
      ]
  moved_folder-NoCycle faults now (some owner) (some id) (some (given p)) =
      elim (Bool-cases (in_subtree (owned_live owner) w.db.folders id p)) [
        | inl below ↦ rw (move-checked faults now id owner w p below) h
        | inr apart ↦ elim (move-folders faults now id owner w (given p)) [
          | inl same ↦ rw same h
          | inr e ↦ rw e (moved-NoCycle u owner id now w.db.folders p apart h)
        ]
      ]

  deleted-NoCycle :
      (faults : DeleteFaults) (now : ℕ) (user id : Option ℕ)
      → NoCycle u (serve (delete_folder faults now user id) w).1.db.folders
  unfolding delete_folder drop_folders
  deleted-NoCycle faults now none id = h
  deleted-NoCycle faults now (some owner) none = h
  deleted-NoCycle faults now (some owner) (some id) = elim (delete-folders faults now id owner w) [
    | inl same ↦ rw same h
    | inr e ↦ rw e (
        NoCycle-sub u w.db.folders _
          (λ g r live.
            elim (Row-update (λ f. in_subtree (owned_live owner) w.db.folders id f.id)
              (mark_folder now) w.db.folders g r) [
                | inl (k, s, t, same) ↦ absurd (ground arith)
                | inr (s, t) ↦ (g, s, refl, refl, live)
              ])
          h)
  ]

-- Each request on the folders, whatever its input, its outcome and what fails in it, and so any
-- number of them one after the other, keeps the folders of every user free of cycles.
pub FolderRun-NoCycle :
    (u : ℕ) (start w : World)
    → FolderRun start w
    → NoCycle u start.db.folders
    → NoCycle u w.db.folders
FolderRun-NoCycle u start _ done h = h
FolderRun-NoCycle u start _ (next {w} run (creates faults now id user body fresh)) h =
    created-NoCycle u w (FolderRun-NoCycle u start w run h) faults now id user body fresh
FolderRun-NoCycle u start _ (next {w} run (renames faults now user id body)) h =
    renamed-NoCycle u w (FolderRun-NoCycle u start w run h) faults now user id body
FolderRun-NoCycle u start _ (next {w} run (moves faults now user id body)) h =
    moved_folder-NoCycle u w (FolderRun-NoCycle u start w run h) faults now user id body
FolderRun-NoCycle u start _ (next {w} run (deletes faults now user id)) h =
    deleted-NoCycle u w (FolderRun-NoCycle u start w run h) faults now user id
