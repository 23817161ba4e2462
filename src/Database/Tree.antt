-- ===== src/Database/Tree.antt =====
-- The tree of the folders: the queries WITH RECURSIVE of backend/internal/http/folders.go, shares.go and
-- zip.go, which start at one folder and go on to the children, over the rows that pass a test.
use personal_space.Prelude.{
  ℕ, zero, suc, ◌<◌, ◌≤◌, ◌≡◌, ◌≢◌, ◌↔◌, refl, ◌⊎◌, inl, inr, Bool, true, false, ◌&&◌, ◌||◌, none,
  some, List, [], ◌∷◌, ◌==◌, any, length, if◌then◌else◌, Bool-cases, Option-cases, arith,
}
use personal_space.Database.Rows.{FolderRow, is_live}

-- The test of the queries on the folders of a share.
abbrev pub live : FolderRow → Bool
live f = is_live f.deleted_at

-- Whether a folder is found below `root` by the chain of its parents, of `fuel` folders at most; every
-- folder on it passes the test.
unfoldable pub in_tree : (FolderRow → Bool) → ℕ → List FolderRow → ℕ → ℕ → Bool
in_tree good zero rows root id = false
in_tree good (suc fuel) rows root id =
    any
      (λ f.
        f.id == id
        && good f
        && (f.id == root
            || elim f.parent [ none ↦ false | some p ↦ in_tree good fuel rows root p ]))
      rows

-- SELECT EXISTS(SELECT 1 FROM tree WHERE id=$1): a way up that meets no folder twice has as many folders
-- as there are at most. It stands for the query where no folder is above itself, as the requests keep
-- it; on a cycle the query, with its UNION ALL, would not end, and this search does.
unfoldable pub in_subtree : (FolderRow → Bool) → List FolderRow → ℕ → ℕ → Bool
in_subtree good rows root id = in_tree good (length rows) rows root id

-- A row of a table.
pub data Row : List FolderRow → FolderRow → Type 0 where
  here : {f : FolderRow} {rows : List FolderRow} → Row (f ∷ rows) f
  there : {f g : FolderRow} {rows : List FolderRow} → Row rows f → Row (g ∷ rows) f

pub Row-inv : (f g : FolderRow) (rows : List FolderRow) → Row (f ∷ rows) g → (g ≡ f) ⊎ Row rows g
Row-inv f _ rows here = inl refl
Row-inv f g rows (there r) = inr r

-- WITH RECURSIVE tree: the folder `id` is `depth` steps below the folder `root`.
pub data InTree (good : FolderRow → Bool) (rows : List FolderRow) (root : ℕ) : ℕ → ℕ → Type 0 where
  base :
      (id : ℕ) (f : FolderRow)
      → Row rows f
      → f.id ≡ id
      → id ≡ root
      → good f ≡ true
      → InTree good rows root zero id
  step :
      (id : ℕ) (f : FolderRow) (p depth : ℕ)
      → InTree good rows root depth p
      → Row rows f
      → f.id ≡ id
      → f.parent ≡ some p
      → good f ≡ true
      → InTree good rows root (suc depth) id

-- A folder below another one, at any depth.
abbrev pub Below : (FolderRow → Bool) → List FolderRow → ℕ → ℕ → Type 0
Below good rows root id = (depth : ℕ) × InTree good rows root depth id

pub any-Row :
    (test : FolderRow → Bool) (rows : List FolderRow)
    → any test rows ≡ true
    → (f : FolderRow) × Row rows f × (test f ≡ true)
any-Row test [] h = cc
any-Row test (f ∷ rows) h = elim (Bool-cases (test f)) [
  | inl holds ↦ (f, here, holds)
  | inr fails ↦ let (g, r, t) = any-Row test rows (ground (arith, fails)) in (g, there r, t)
]

pub Row-any :
    (test : FolderRow → Bool) (rows : List FolderRow) (f : FolderRow)
    → Row rows f
    → test f ≡ true
    → any test rows ≡ true
Row-any test _ f here h = ground arith
Row-any test _ f (there r) h = ground (arith, Row-any test _ f r h)

in_tree-InTree :
    (good : FolderRow → Bool) (fuel : ℕ) (rows : List FolderRow) (root id : ℕ)
    → in_tree good fuel rows root id ≡ true
    → (depth : ℕ) × InTree good rows root depth id
unfolding in_tree
in_tree-InTree good zero rows root id h = cc
in_tree-InTree good (suc fuel) rows root id h =
    let (f, r, t) = any-Row _ rows h in
    elim (Bool-cases (f.id == root)) [
      | inl top ↦ (0, base id f r (ground arith) (ground arith) (ground arith))
      | inr below ↦ elim (Option-cases f.parent) [
        | inl none_given ↦ absurd (ground arith)
        | inr (p, e) ↦
            let (depth, tree) = in_tree-InTree good fuel rows root p (ground arith) in
            (suc depth, step id f p depth tree r (ground arith) e (ground arith))
      ]
    ]

InTree-in_tree :
    (good : FolderRow → Bool) (fuel depth : ℕ) (rows : List FolderRow) (root id : ℕ)
    → InTree good rows root depth id
    → depth < fuel
    → in_tree good fuel rows root id ≡ true
unfolding in_tree
InTree-in_tree good zero depth rows root id t h = absurd (omega arith)
InTree-in_tree good (suc fuel) _ rows root id (base _ f r same top holds) h =
    Row-any _ rows f r (ground arith)
InTree-in_tree good (suc fuel) _ rows root id (step _ f p depth t r same parent holds) h =
    let above = InTree-in_tree good fuel depth rows root p t (omega arith) in
    Row-any _ rows f r (ground arith)

-- The table without the rows of one id.
abbrev pub without : ℕ → List FolderRow → List FolderRow
without id [] = []
without id (f ∷ rows) = if f.id == id then without id rows else f ∷ without id rows

length-without_le : (id : ℕ) (rows : List FolderRow) → length (without id rows) ≤ length rows
length-without_le id [] = omega arith
length-without_le id (f ∷ rows) = ground (arith, length-without_le id rows)

pub length-without :
    (rows : List FolderRow) (f : FolderRow) → Row rows f → length (without f.id rows) < length rows
length-without _ f (here {rows}) = ground (arith, length-without_le f.id rows)
length-without _ f (there {g} {rows} r) = ground (arith, length-without rows f r)

same_no : (a b : ℕ) → a ≢ b → (a == b) ≡ false
same_no a b h = ground arith

pub Row-without :
    (id : ℕ) (rows : List FolderRow) (f : FolderRow)
    → Row rows f
    → f.id ≢ id
    → Row (without id rows) f
Row-without id _ f (here {rows}) other = rw (same_no f.id id other) here
Row-without id _ f (there {g} {rows} r) other = elim (Bool-cases (g.id == id)) [
  | inl same ↦ rw same (Row-without id rows f r other)
  | inr e ↦ rw e (there (Row-without id rows f r other))
]

Row-cons :
    (g : FolderRow) (rows others : List FolderRow) (f : FolderRow)
    → (Row rows f → Row others f)
    → Row (g ∷ rows) f
    → Row (g ∷ others) f
Row-cons g rows others _ sub here = here
Row-cons g rows others f sub (there s) = there (sub s)

pub without-Row :
    (id : ℕ) (rows : List FolderRow) (f : FolderRow) → Row (without id rows) f → Row rows f
without-Row id [] f r = r
without-Row id (g ∷ rows) f r = elim (Bool-cases (g.id == id)) [
  | inl same ↦ there (without-Row id rows f (rw same at r))
  | inr e ↦ Row-cons g (without id rows) rows f (without-Row id rows f) (rw e at r)
]

pub InTree-mono :
    (good : FolderRow → Bool) (rows others : List FolderRow) (root depth id : ℕ)
    → ((f : FolderRow) → Row rows f → Row others f)
    → InTree good rows root depth id
    → InTree good others root depth id
InTree-mono good rows others root _ id sub (base _ f r e top holds) =
    base id f (sub f r) e top holds
InTree-mono good rows others root _ id sub (step _ f p depth t r e parent holds) =
    step id f p depth (InTree-mono good rows others root depth p sub t) (sub f r) e parent holds

-- A way up that meets `id` can start there.
InTree-split :
    (good : FolderRow → Bool) (rows : List FolderRow) (root depth p id : ℕ)
    → InTree good rows root depth p
    → InTree good (without id rows) root depth p
      ⊎ (d : ℕ) × (d ≤ depth) × InTree good rows root d id
InTree-split good rows root _ p id (base _ f r e top holds) = elim (Bool-cases (p == id)) [
  | inl same ↦ inr (0, omega arith, base id f r (ground arith) (ground arith) holds)
  | inr other ↦ inl (base p f (Row-without id rows f r (ground arith)) e top holds)
]
InTree-split good rows root _ p id (step _ f q depth t r e parent holds) =
    elim (Bool-cases (p == id)) [
      | inl same ↦ inr (suc depth, omega arith, step id f q depth t r (ground arith) parent holds)
      | inr other ↦ elim (InTree-split good rows root depth q id t) [
        | inl avoids ↦
            inl (step p f q depth avoids (Row-without id rows f r (ground arith)) e parent holds)
        | inr (d, le, u) ↦ inr (d, omega arith, u)
      ]
    ]

-- The shortest way up meets no folder twice.
pub InTree-short :
    (good : FolderRow → Bool) (n m : ℕ) (rows : List FolderRow) (root depth id : ℕ)
    → InTree good rows root depth id
    → length rows ≤ n
    → depth ≤ m
    → (d : ℕ) × (d < length rows) × InTree good rows root d id
InTree-short good n m rows root _ id (base _ f r e top holds) hn hm =
    (0, (omega (arith, length-without rows f r)), base id f r e top holds)
InTree-short good zero m rows root _ id (step _ f p depth t r e parent holds) hn hm =
    absurd (omega (arith, length-without rows f r))
InTree-short good (suc n) zero rows root _ id (step _ f p depth t r e parent holds) hn hm =
    absurd (omega arith)
InTree-short good (suc n) (suc m) rows root _ id (step _ f p depth t r e parent holds) hn hm =
    elim (InTree-split good rows root depth p id t) [
      | inl avoids ↦
          let less : length (without id rows) < length rows = rw e at (length-without rows f r) in
          let (d, lt, u) =
            InTree-short good n depth (without id rows) root depth p avoids (omega arith)
              (omega arith) in
          (
            suc d,
            (omega arith),
            step id f p d (InTree-mono good (without id rows) rows root d p (without-Row id rows) u)
                r e parent holds,
          )
      | inr (d, le, u) ↦ InTree-short good (suc n) m rows root d id u hn (omega arith)
    ]

-- The search with as many steps as there are folders finds the folders from which a chain of parents,
-- of any length, leads up to the root.
pub in_subtree_iff :
    (good : FolderRow → Bool) (rows : List FolderRow) (root id : ℕ)
    → (in_subtree good rows root id ≡ true) ↔ Below good rows root id
unfolding in_subtree
in_subtree_iff good rows root id = (
  in_tree-InTree good (length rows) rows root id,
  λ (depth, t).
      let (d, lt, u) =
        InTree-short good (length rows) depth rows root depth id t (omega arith) (omega arith) in
      InTree-in_tree good (length rows) d rows root id u lt,
)
