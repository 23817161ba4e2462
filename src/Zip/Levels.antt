-- ===== src/Zip/Levels.antt =====
-- The levels of the recursive query of backend/internal/http/zip.go are the tree of the folders.
use personal_space.Prelude.{
  ℕ, zero, suc, ◌+◌, ◌<◌, ◌≡◌, ◌↔◌, refl, sym, ◌∙◌, inl, inr, Bool, true, ◌&&◌, ◌||◌, List, [], ◌∷◌,
  ◌++◌, some, ◌==◌, any, length, Bool-cases, Option-cases, arith,
}
use personal_space.Database.Rows.{FolderRow, same_id}
use personal_space.Database.Tree.{Row, here, there, InTree, base, step, Below, InTree-short}
use personal_space.Zip.Entries.{TreeRow, base_rows, child_rows, next_rows, levels, folder_tree}

abbrev pub has : ℕ → List TreeRow → Bool
has x = any (λ t. t.id == x)

has-append : (x : ℕ) (ts us : List TreeRow) → has x (ts ++ us) ≡ (has x ts || has x us)
has-append x [] us = refl
has-append x (t ∷ ts) us = ground (arith, has-append x ts us)

module _ (good : FolderRow → Bool) (root : ℕ) where
  base-Row :
      (fs : List FolderRow) (x : ℕ)
      → has x (base_rows good root fs) ≡ true
      → (f : FolderRow) × Row fs f × (f.id ≡ x) × (x ≡ root) × (good f ≡ true)
  unfolding base_rows
  base-Row [] x h = cc
  base-Row (f ∷ fs) x h = elim (Bool-cases (good f && f.id == root && f.id == x)) [
    | inl e ↦ (f, here, ground (arith, e), ground (arith, e), ground (arith, e))
    | inr e ↦ let (g, r, i, top, k) = base-Row fs x (ground (arith, e)) in (g, there r, i, top, k)
  ]

  Row-base :
      (fs : List FolderRow) (f : FolderRow)
      → Row fs f
      → f.id ≡ root
      → good f ≡ true
      → has root (base_rows good root fs) ≡ true
  unfolding base_rows
  Row-base _ f (here {rows}) e g = ground (arith, e, g)
  Row-base _ f (there {g} {rows} r) e h = ground (arith, Row-base rows f r e h)

  child-has :
      (f : FolderRow) (ts : List TreeRow) (x : ℕ)
      → has x (child_rows f ts) ≡ true
      → (f.id ≡ x) × ((p : ℕ) × (f.parent ≡ some p) × (has p ts ≡ true))
  unfolding child_rows
  child-has f [] x h = cc
  child-has f (t ∷ ts) x h = elim (Bool-cases (same_id f.parent (some t.id) && f.id == x)) [
    | inl e ↦ elim (Option-cases f.parent) [
      | inl none_given ↦ absurd (ground (arith, e))
      | inr (p, q) ↦ (ground (arith, e), (p, q, ground (arith, e, q)))
    ]
    | inr e ↦
        let (a, (p, q, r)) = child-has f ts x (ground (arith, e)) in (a, (p, q, ground (arith, r)))
  ]

  has-child :
      (f : FolderRow) (ts : List TreeRow) (p : ℕ)
      → f.parent ≡ some p
      → has p ts ≡ true
      → has f.id (child_rows f ts) ≡ true
  unfolding child_rows
  has-child f [] p e h = cc
  has-child f (t ∷ ts) p e h = ground (arith, e, has-child f ts p e)

  next-Row :
      (fs : List FolderRow) (ts : List TreeRow) (x : ℕ)
      → has x (next_rows good fs ts) ≡ true
      → (f : FolderRow) × (p : ℕ) × Row fs f
        × (f.id ≡ x)
        × (f.parent ≡ some p)
        × (good f ≡ true)
        × (has p ts ≡ true)
  unfolding next_rows
  next-Row [] ts x h = cc
  next-Row (f ∷ fs) ts x h = elim (Bool-cases (good f && has x (child_rows f ts))) [
    | inl e ↦
        let (a, (p, q, r)) = child-has f ts x (ground (arith, e)) in
        (f, p, here, a, q, ground (arith, e), r)
    | inr e ↦
        let (g, p, r, i, q, k, l) =
          next-Row fs ts x
            (ground (arith, e, has-append x (child_rows f ts) (next_rows good fs ts))) in
        (g, p, there r, i, q, k, l)
  ]

  Row-next :
      (fs : List FolderRow) (ts : List TreeRow) (f : FolderRow) (p : ℕ)
      → Row fs f
      → f.parent ≡ some p
      → good f ≡ true
      → has p ts ≡ true
      → has f.id (next_rows good fs ts) ≡ true
  unfolding next_rows
  Row-next _ ts f p (here {rows}) e g h =
      ground
        (arith, g, has-child f ts p e h, has-append f.id (child_rows f ts) (next_rows good rows ts))
  Row-next _ ts f p (there {g} {rows} r) e k h = ground (
    arith,
    Row-next rows ts f p r e k h,
    has-append f.id (child_rows g ts) (next_rows good rows ts),
  )

  module _ (rows : List FolderRow) where
    -- The working table of the query, round by round.
    abbrev pub level : ℕ → List TreeRow
    level zero = base_rows good root rows
    level (suc d) = next_rows good rows (level d)

    pub level-InTree : (d x : ℕ) → has x (level d) ≡ true → InTree good rows root d x
    level-InTree zero x h = let (f, r, e, top, g) = base-Row rows x h in base x f r e top g
    level-InTree (suc d) x h =
        let (f, p, r, e, q, g, k) = next-Row rows (level d) x h in
        step x f p d (level-InTree d p k) r e q g

    InTree-level : (d x : ℕ) → InTree good rows root d x → has x (level d) ≡ true
    InTree-level _ x (base _ f r e top g) = rw top (Row-base rows f r (e ∙ top) g)
    InTree-level _ x (step _ f p d t r e q g) =
        rw (sym e) (Row-next rows (level d) f p r q g (InTree-level d p t))

    levels-level :
        (n k x : ℕ)
        → has x (levels good n rows (level k)) ≡ true
        → (d : ℕ) × (has x (level d) ≡ true)
    unfolding levels
    levels-level zero k x h = cc
    levels-level (suc n) k x h = elim (Bool-cases (has x (level k))) [
      | inl e ↦ (k, e)
      | inr e ↦
          levels-level n (suc k) x
            (ground (arith, e, has-append x (level k) (levels good n rows (level (suc k)))))
    ]

    level-levels :
        (n k j x : ℕ)
        → j < n
        → has x (level (k + j)) ≡ true
        → has x (levels good n rows (level k)) ≡ true
    unfolding levels
    level-levels zero k j x h e = absurd (omega arith)
    level-levels (suc n) k zero x h e =
        ground (arith, e, has-append x (level k) (levels good n rows (level (suc k))))
    level-levels (suc n) k (suc j) x h e =
        let shifted : suc k + j ≡ k + suc j = omega arith in
        ground (
          arith,
          level-levels n (suc k) j x (omega arith) (rw shifted e),
          has-append x (level k) (levels good n rows (level (suc k))),
        )

    -- The query yields the folders below the root, at any depth.
    pub folder_tree_iff :
        (x : ℕ) → (has x (folder_tree good rows root) ≡ true) ↔ Below good rows root x
    unfolding folder_tree
    folder_tree_iff x = (
      λ h. let (d, e) = levels-level (length rows) 0 x h in (d, level-InTree d x e),
      λ (d, t).
          let (n, lt, u) =
            InTree-short good (length rows) d rows root d x t (omega arith) (omega arith) in
          let start : n ≡ 0 + n = omega arith in
          level-levels (length rows) 0 n x lt (rw start at (InTree-level n x u)),
    )
