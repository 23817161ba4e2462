-- ===== src/Zip/Collected.antt =====
-- The entries of an archive of backend/internal/http/zip.go are the files of the tree.
use mathlib.Core.Path.{subst}
use personal_space.Prelude.{
  ℕ, ◌≡◌, ◌↔◌, refl, sym, ◌⊎◌, inl, inr, true, false, List, [], ◌∷◌, ◌++◌, map, some, Bool-cases,
  arith,
}
use personal_space.Database.Rows.{Database, FileRow, same_id}
use personal_space.Database.Tree.{Below}
use personal_space.Folders.Handlers.{owned_live}
use personal_space.Folders.Deletion.{InFiles}
use personal_space.Folders.Sort.{slice_stable}
use personal_space.Zip.Entries.{
  TreeRow, ZipRow, Texts, entry_of, rows_of, zip_rows, owned_file, folder_tree, row_before,
  collect_folder_zip_entries,
}
use personal_space.Zip.Levels.{has, folder_tree_iff}

-- A file among the rows of the result.
abbrev pub Listed : FileRow → List ZipRow → Type 0
Listed f [] = ⊥
Listed f (z ∷ zs) = (z.file ≡ f) ⊎ Listed f zs

Listed-append :
    (f : FileRow) (xs ys : List ZipRow) → Listed f (xs ++ ys) ↔ (Listed f xs ⊎ Listed f ys)
Listed-append f [] ys = (inr, elim [ inl h ↦ absurd h | inr h ↦ h ])
Listed-append f (x ∷ xs) ys = ground (arith, Listed-append f xs ys)

rows_of-Listed :
    (g f : FileRow) (ts : List TreeRow)
    → Listed f (rows_of g ts)
    → (g ≡ f) × ((x : ℕ) × (f.folder ≡ some x) × (has x ts ≡ true))
unfolding rows_of
rows_of-Listed g f [] h = absurd h
rows_of-Listed g f (t ∷ ts) h = elim (Bool-cases (same_id g.folder (some t.id))) [
  | inr e ↦ let (a, (x, q, r)) = rows_of-Listed g f ts (rw e at h) in (a, (x, q, ground (arith, r)))
  | inl e ↦ elim (rw e at h) [
    | inl same ↦ (same, (t.id, ground (arith, e, same), ground arith))
    | inr later ↦ let (a, (x, q, r)) = rows_of-Listed g f ts later in (a, (x, q, ground (arith, r)))
  ]
]

Listed-rows_of :
    (f : FileRow) (ts : List TreeRow) (x : ℕ)
    → f.folder ≡ some x
    → has x ts ≡ true
    → Listed f (rows_of f ts)
unfolding rows_of
Listed-rows_of f [] x e h = cc
Listed-rows_of f (t ∷ ts) x e h = ground (arith, e, Listed-rows_of f ts x e)

abbrev InTreeRows : FileRow → List TreeRow → Type 0
InTreeRows f ts = (x : ℕ) × (f.folder ≡ some x) × (has x ts ≡ true)

zip_rows_sound :
    (owner : ℕ) (f : FileRow) (fs : List FileRow) (ts : List TreeRow)
    → Listed f (zip_rows owner fs ts)
    → InFiles f fs × (owned_file owner f ≡ true) × InTreeRows f ts
unfolding zip_rows
zip_rows_sound owner f [] ts h = absurd h
zip_rows_sound owner f (g ∷ fs) ts h = elim (Bool-cases (owned_file owner g)) [
  | inr e ↦ let (r, o, p) = zip_rows_sound owner f fs ts (rw e at h) in (inr r, o, p)
  | inl e ↦ elim ((Listed-append f (rows_of g ts) (zip_rows owner fs ts)).0 (rw e at h)) [
    | inl own ↦ let (same, p) = rows_of-Listed g f ts own in (inl (sym same), rw same at e, p)
    | inr later ↦ let (r, o, p) = zip_rows_sound owner f fs ts later in (inr r, o, p)
  ]
]

zip_rows_complete :
    (owner : ℕ) (f : FileRow) (fs : List FileRow) (ts : List TreeRow)
    → InFiles f fs
    → owned_file owner f ≡ true
    → InTreeRows f ts
    → Listed f (zip_rows owner fs ts)
unfolding zip_rows
zip_rows_complete owner f [] ts r o p = absurd r
zip_rows_complete owner f (g ∷ fs) ts (inl same) o (x, q, h) =
    let own : owned_file owner g ≡ true = rw same at o in
    rw own (
      (Listed-append f (rows_of g ts) (zip_rows owner fs ts)).1
        (inl (subst (λ k. Listed f (rows_of k ts)) same (Listed-rows_of f ts x q h))))
zip_rows_complete owner f (g ∷ fs) ts (inr r) o p =
    let later = zip_rows_complete owner f fs ts r o p in
    elim (Bool-cases (owned_file owner g)) [
      | inr e ↦ rw e later
      | inl e ↦ rw e ((Listed-append f (rows_of g ts) (zip_rows owner fs ts)).1 (inr later))
    ]

-- The entries of an archive come from rows in the order of the query, and those are exactly the live
-- files of the owner in the folder and in the live folders below it, at any depth.
pub collect_folder_zip_entries_iff :
    (texts : Texts) (root owner : ℕ) (db : Database)
    → (rows : List ZipRow) × (collect_folder_zip_entries texts false root owner db
        ≡ some (map (entry_of texts.spell) (slice_stable (row_before texts) rows)))
      × ((f : FileRow)
          → Listed f rows ↔ (
              InFiles f db.files
              × (owned_file owner f ≡ true)
              × ((x : ℕ) × (f.folder ≡ some x) × Below (owned_live owner) db.folders root x)))
unfolding collect_folder_zip_entries
collect_folder_zip_entries_iff texts root owner db =
    let ts = folder_tree (owned_live owner) db.folders root in
    (
      zip_rows owner db.files ts,
      refl,
      λ f. (
        (λ h.
            let (r, o, (x, q, k)) = zip_rows_sound owner f db.files ts h in
            (r, o, (x, q, (folder_tree_iff (owned_live owner) root db.folders x).0 k))),
        (λ (r, o, (x, q, b)).
            zip_rows_complete owner f db.files ts r o
              (x, q, (folder_tree_iff (owned_live owner) root db.folders x).1 b)),
      ),
    )
