-- ===== src/Zip/Ends.antt =====
-- The end of the recursive queries over a user's folders: collectFolderZipEntries of
-- backend/internal/http/zip.go, after any requests of backend/internal/http/folders.go. UNION ALL goes
-- on until a round adds no row, which on a cycle of folders never happens.
use personal_space.Prelude.{
  ℕ, zero, suc, ◌+◌, ◌≤◌, ◌<◌, ◌≡◌, ◌⊎◌, refl, ap, inl, inr, Bool, List, [], ◌∷◌, ◌++◌, ◌==◌,
  length, Bool-cases, arith,
}
use personal_space.Database.Rows.{FolderRow}
use personal_space.Database.Tree.{
  InTree, base, step, InTree-mono, without, without-Row, Row-without, length-without,
}
use personal_space.Server.World.{World}
use personal_space.Folders.Handlers.{owned_live}
use personal_space.Folders.Acyclic.{NoCycle}
use personal_space.Folders.Requests.{FolderRun, FolderRun-NoCycle}
use personal_space.Zip.Entries.{TreeRow, base_rows, child_rows, next_rows, levels, folder_tree}
use personal_space.Zip.Levels.{level, level-InTree}

module _ (good : FolderRow → Bool) where
  -- A way down to a folder avoids another one, or goes on from it.
  InTree-avoid :
      (rows : List FolderRow) (root depth p id : ℕ)
      → InTree good rows root depth p
      → InTree good (without id rows) root depth p ⊎ (d : ℕ) × InTree good rows id d p
  InTree-avoid rows root _ p id (base _ f r e top holds) = elim (Bool-cases (p == id)) [
    | inl same ↦ inr (0, base p f r e (ground (arith, same)) holds)
    | inr other ↦ inl (base p f (Row-without id rows f r (ground arith)) e top holds)
  ]
  InTree-avoid rows root _ p id (step _ f q depth t r e parent holds) =
      elim (Bool-cases (p == id)) [
        | inl same ↦ inr (0, base p f r e (ground (arith, same)) holds)
        | inr other ↦ elim (InTree-avoid rows root depth q id t) [
          | inl avoids ↦
              inl (step p f q depth avoids (Row-without id rows f r (ground arith)) e parent holds)
          | inr (d, u) ↦ inr (suc d, step p f q d u r e parent holds)
        ]
      ]

  -- Where no folder is above itself, none is as deep as there are folders.
  InTree-depth :
      (n : ℕ) (rows : List FolderRow) (root depth id : ℕ)
      → length rows ≤ n
      → ((x d : ℕ) → ¬ InTree good rows x (suc d) x)
      → InTree good rows root depth id
      → depth < length rows
  InTree-depth n rows root _ id le h (base _ f r e top holds) =
      omega (arith, length-without rows f r)
  InTree-depth zero rows root _ id le h (step _ f p depth t r e parent holds) =
      absurd (omega (arith, length-without rows f r))
  InTree-depth (suc n) rows root _ id le h (step _ f p depth t r e parent holds) =
      elim (InTree-avoid rows root depth p id t) [
        | inr (d, u) ↦ absurd (h id d (step id f p d u r e parent holds))
        | inl avoids ↦
            let less : length (without id rows) < length rows = rw e at (length-without rows f r) in
            let above =
              InTree-depth n (without id rows) root depth p (omega arith)
                (λ x d u.
                  h x d
                    (InTree-mono good (without id rows) rows x (suc d) x (without-Row id rows) u))
                avoids in
            omega arith
      ]

  module _ (root : ℕ) (rows : List FolderRow) (h : (x d : ℕ) → ¬ InTree good rows x (suc d) x) where
    no_row :
        (ts : List TreeRow)
        → level good root rows (length rows) ≡ ts
        → level good root rows (length rows) ≡ []
    no_row [] e = e
    no_row (t ∷ ts) e =
        let deep = level-InTree good root rows (length rows) t.id (rw e (ground arith)) in
        absurd (
          omega
            (arith, InTree-depth (length rows) rows root (length rows) t.id (omega arith) h deep))

    last_level : level good root rows (length rows) ≡ []
    last_level = no_row (level good root rows (length rows)) refl

    none_below : (fs : List FolderRow) → next_rows good fs [] ≡ []
    unfolding next_rows child_rows
    none_below [] = refl
    none_below (f ∷ fs) = ground (arith, none_below fs)

    no_levels : (k : ℕ) → levels good k rows [] ≡ []
    unfolding levels
    no_levels zero = refl
    no_levels (suc k) = rw (none_below rows) (no_levels k)

    levels-more :
        (n k j : ℕ)
        → level good root rows (j + n) ≡ []
        → levels good (n + k) rows (level good root rows j)
          ≡ levels good n rows (level good root rows j)
    unfolding levels
    levels-more zero k j e =
        let start : j + 0 ≡ j = omega arith in
        let here : level good root rows j ≡ [] = rw start at e in rw here (no_levels (0 + k))
    levels-more (suc n) k j e =
        let shifted : j + suc n ≡ suc j + n = omega arith in
        let sum : suc n + k ≡ suc (n + k) = omega arith in
        rw sum (ap (λ ts. level good root rows j ++ ts) (levels-more n k (suc j) (rw shifted at e)))

-- After any folder requests on folders of which none was above itself, the recursive query over the
-- user's folders ends: its working table is empty after as many rounds as there are folders, and any
-- further rounds add nothing to the rows.
pub FolderRun-folder_tree :
    (u root more : ℕ) (w after : World)
    → FolderRun w after
    → NoCycle u w.db.folders
    → (level (owned_live u) root after.db.folders (length after.db.folders) ≡ [])
      × (levels
            (owned_live u)
            (length after.db.folders + more)
            after.db.folders
            (base_rows (owned_live u) root after.db.folders)
          ≡ folder_tree (owned_live u) after.db.folders root)
unfolding folder_tree
FolderRun-folder_tree u root more w after run h =
    let rows = after.db.folders in
    let acyclic = FolderRun-NoCycle u w after run h in
    let last = last_level (owned_live u) root rows acyclic in
    (last, levels-more (owned_live u) root rows acyclic (length rows) more 0 (ground (arith, last)))
