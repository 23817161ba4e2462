-- ===== src/Folders/Acyclic.antt =====
-- No request on the folders of backend/internal/http/folders.go makes a cycle.
use personal_space.Prelude.{
  ℕ, suc, ◌≡◌, ◌≢◌, ◌∙◌, ◌⊎◌, inl, inr, Bool, true, false, Text, Option, none, some, List, [], ◌∷◌,
  update_where, Bool-cases, arith,
}
use personal_space.Database.Rows.{FolderRow, live_folder_of}
use personal_space.Database.Tree.{
  Row, here, there, InTree, base, step, in_subtree, in_subtree_iff, Row-inv, Below,
}
use personal_space.Folders.Handlers.{owned_live, new_folder, move_to}

-- No folder of the user is above itself.
abbrev pub NoCycle : ℕ → List FolderRow → Type 0
NoCycle u rows = (id depth : ℕ) → ¬ InTree (owned_live u) rows id (suc depth) id

shifted :
    (test : FolderRow → Bool) (f : FolderRow → FolderRow) (k : FolderRow) (rows : List FolderRow)
    (g : FolderRow)
    → ((m : FolderRow) × Row rows m × (test m ≡ true) × (g ≡ f m)) ⊎ Row rows g × (test g ≡ false)
    → ((m : FolderRow) × Row (k ∷ rows) m × (test m ≡ true) × (g ≡ f m))
      ⊎ Row (k ∷ rows) g × (test g ≡ false)
shifted test f k rows g (inl (m, r, t, e)) = inl (m, there r, t, e)
shifted test f k rows g (inr (r, t)) = inr (there r, t)

-- A row of an updated table.
pub Row-update :
    (test : FolderRow → Bool) (f : FolderRow → FolderRow) (rows : List FolderRow) (g : FolderRow)
    → Row (update_where test f rows) g
    → ((k : FolderRow) × Row rows k × (test k ≡ true) × (g ≡ f k)) ⊎ Row rows g × (test g ≡ false)
Row-update test f [] g r = elim r [ ]
Row-update test f (k ∷ rows) g r = elim (Bool-cases (test k)) [
  | inl holds ↦ elim (Row-inv (f k) g (update_where test f rows) (rw holds at r)) [
    | inl e ↦ inl (k, here, holds, e)
    | inr s ↦ shifted test f k rows g (Row-update test f rows g s)
  ]
  | inr fails ↦ elim (Row-inv k g (update_where test f rows) (rw fails at r)) [
    | inl e ↦ inr (rw e here, rw e fails)
    | inr s ↦ shifted test f k rows g (Row-update test f rows g s)
  ]
]

Below-trans :
    (good : FolderRow → Bool) (rows : List FolderRow) (root middle e id : ℕ)
    → Below good rows root middle
    → InTree good rows middle e id
    → Below good rows root id
Below-trans good rows root middle _ id t (base _ f r same top holds) = rw top t
Below-trans good rows root middle _ id t (step _ f p e u r same parent holds) =
    let (d, s) = Below-trans good rows root middle e p t u in
    (suc d, step id f p d s r same parent holds)

-- The tree has its root.
InTree-root :
    (good : FolderRow → Bool) (rows : List FolderRow) (root d id : ℕ)
    → InTree good rows root d id
    → (f : FolderRow) × Row rows f × (f.id ≡ root)
InTree-root good rows root _ id (base _ f r same top holds) = (f, r, same ∙ top)
InTree-root good rows root _ id (step _ f p d t r same parent holds) =
    InTree-root good rows root d p t

module _ (u owner folder now : ℕ) (rows : List FolderRow) where
  abbrev moved : Option ℕ → List FolderRow
  moved parent = update_where (live_folder_of folder owner) (move_to now parent) rows

  abbrev Up : ℕ → ℕ → Type 0
  Up = Below (owned_live u) rows

  was :
      (parent : Option ℕ) (g : FolderRow)
      → Row (moved parent) g
      → ((k : FolderRow) × Row rows k
          × (live_folder_of folder owner k ≡ true)
          × (g ≡ move_to now parent k))
        ⊎ Row rows g × (live_folder_of folder owner g ≡ false)
  was parent g = Row-update (live_folder_of folder owner) (move_to now parent) rows g

  -- A way up after the move is an old one, or goes through the folder that was moved.
  moved-Up :
      (p root d id : ℕ)
      → InTree (owned_live u) (moved (some p)) root d id
      → InTree (owned_live u) rows root d id ⊎ (u ≡ owner) × Up folder id × Up root p
  moved-Up p root _ id (base _ g r same top holds) = elim (was (some p) g r) [
    | inl (k, s, own, e) ↦ inl (base id k s (ground arith) top (ground arith))
    | inr (s, other) ↦ inl (base id g s same top holds)
  ]
  moved-Up p root _ id (step _ g q d t r same parent holds) =
      let tail = moved-Up p root d q t in
      elim (was (some p) g r) [
        | inr (s, other) ↦ elim tail [
          | inl old ↦ inl (step id g q d old s same parent holds)
          | inr (e, (n, a), b) ↦ inr (e, (suc n, step id g q n a s same parent holds), b)
        ]
        | inl (k, s, own, e) ↦
            let there_is : InTree (owned_live u) rows folder 0 id =
              base id k s (ground arith) (ground arith) (ground arith) in
            elim tail [
              | inl old ↦
                  let target : q ≡ p = ground arith in
                  inr (ground arith, (0, there_is), (d, rw target at old))
              | inr (same_owner, a, b) ↦ inr (same_owner, (0, there_is), b)
            ]
      ]

  -- Nor does a move to the root make any.
  unmoved-Up :
      (root d id : ℕ)
      → InTree (owned_live u) (moved none) root d id
      → InTree (owned_live u) rows root d id
  unmoved-Up root _ id (base _ g r same top holds) = elim (was none g r) [
    | inl (k, s, own, e) ↦ base id k s (ground arith) top (ground arith)
    | inr (s, other) ↦ base id g s same top holds
  ]
  unmoved-Up root _ id (step _ g q d t r same parent holds) = elim (was none g r) [
    | inl (k, s, own, e) ↦ absurd (ground arith)
    | inr (s, other) ↦ step id g q d (unmoved-Up root d q t) s same parent holds
  ]

  -- A move that the check lets through makes no cycle.
  pub moved-NoCycle :
      (p : ℕ)
      → in_subtree (owned_live owner) rows folder p ≡ false
      → NoCycle u rows
      → NoCycle u (moved (some p))
  moved-NoCycle p checked h id depth t = elim (moved-Up p id (suc depth) id t) [
    | inl old ↦ h id depth old
    | inr (e, a, (n, b)) ↦
        let below = Below-trans (owned_live u) rows folder id n p a b in
        let found : in_subtree (owned_live owner) rows folder p ≡ true =
          (in_subtree_iff (owned_live owner) rows folder p).1 (rw e at below) in
        ground arith
  ]

  pub unmoved-NoCycle : NoCycle u rows → NoCycle u (moved none)
  unmoved-NoCycle h id depth t = h id depth (unmoved-Up id (suc depth) id t)

-- A new id: no row has it, and none names it as its parent.
abbrev pub IsFresh : ℕ → List FolderRow → Type 0
IsFresh id rows = (f : FolderRow) → Row rows f → (f.id ≢ id) × (f.parent ≢ some id)

module _ (u now owner new : ℕ) (name : Text) (parent : Option ℕ) (rows : List FolderRow)
    (fresh : IsFresh new rows) where
  added-Up :
      (root d id : ℕ)
      → InTree (owned_live u) (new_folder now new owner parent name ∷ rows) root d id
      → InTree (owned_live u) rows root d id ⊎ (id ≡ new)
  added-Up root _ id (base _ g r same top holds) = elim (Row-inv _ g rows r) [
    | inl e ↦ inr (ground arith)
    | inr s ↦ inl (base id g s same top holds)
  ]
  added-Up root _ id (step _ g q d t r same above holds) = elim (Row-inv _ g rows r) [
    | inl e ↦ inr (ground arith)
    | inr s ↦ elim (added-Up root d q t) [
      | inl old ↦ inl (step id g q d old s same above holds)
      | inr e ↦ absurd (ground (arith, fresh g s))
    ]
  ]

  -- A new folder below an old one, or at the root, makes no cycle.
  pub added-NoCycle :
      parent ≢ some new → NoCycle u rows → NoCycle u (new_folder now new owner parent name ∷ rows)
  added-NoCycle other h id depth t = elim (added-Up id (suc depth) id t) [
    | inl old ↦ h id depth old
    | inr e ↦ absurd (at_new id depth t e)
  ]
    where
      at_new :
          (id depth : ℕ)
          → InTree (owned_live u) (new_folder now new owner parent name ∷ rows) id (suc depth) id
          → id ≡ new
          → ⊥
      at_new id _ (step _ g q d t r same above holds) e = elim (Row-inv _ g rows r) [
        | inr s ↦ ground (arith, fresh g s)
        | inl at_head ↦ elim (added-Up id d q t) [
          | inr e2 ↦ ground arith
          | inl old ↦
              let (f, s, same_root) = InTree-root (owned_live u) rows id d q old in
              ground (arith, fresh f s)
        ]
      ]

-- Fewer live folders, with the parents that they had, make no cycle.
pub NoCycle-sub :
    (u : ℕ) (rows others : List FolderRow)
    → ((g : FolderRow)
        → Row others g
        → owned_live u g ≡ true
        → (k : FolderRow) × Row rows k
          × (k.id ≡ g.id)
          × (k.parent ≡ g.parent)
          × (owned_live u k ≡ true))
    → NoCycle u rows
    → NoCycle u others
NoCycle-sub u rows others sub h id depth t = h id depth (back id (suc depth) id t)
  where
    back :
        (root d x : ℕ) → InTree (owned_live u) others root d x → InTree (owned_live u) rows root d x
    back root _ x (base _ g r same top holds) =
        let (k, s, e, p, live) = sub g r holds in base x k s (e ∙ same) top live
    back root _ x (step _ g q d t r same above holds) =
        let (k, s, e, p, live) = sub g r holds in
        step x k q d (back root d q t) s (e ∙ same) (p ∙ above) live
