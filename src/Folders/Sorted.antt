-- ===== src/Folders/Sorted.antt =====
-- sortBrowserItems of backend/internal/http/folders.go sorts, stably.
use mathlib.Core.Path.{ap₂, subst₂, fun_ext}
use mathlib.Core.List.{Perm}
use personal_space.Prelude.{
  ℕ, ◌≡◌, ◌<◌, ◌⊎◌, ◌∙◌, sym, ltb, ◌||◌, codes, text_eq, text_eq_iff, text_eq_refl, one_of, refl,
  inl, inr, Bool, true, false, ◌&&◌, not, Text, List, [], ◌∷◌, ◌==◌, if◌then◌else◌, Bool-cases,
  arith,
}
use personal_space.Folders.Sort.{
  BrowserItem, ItemType, folder, file, text_less, compare_items, key_of, same_type, is_folder,
  before_num, sort_browser_items, size_of, is_desc,
}
use personal_space.Folders.Listing.{select}
use personal_space.Folders.Stable.{
  NoneBefore, IsSorted, ties, IsWeakOrder, slice_stable-IsSorted, slice_stable-perm,
  slice_stable-ties,
}

text_less-asym : (a b : Text) → text_less a b ≡ true → text_less b a ≡ false
unfolding text_less
text_less-asym [] [] h = refl
text_less-asym [] (d ∷ t) h = refl
text_less-asym (c ∷ s) [] h = cc
text_less-asym (c ∷ s) (d ∷ t) h = ground (arith, text_less-asym s t)

text_less-negtrans :
    (a b c : Text) → text_less a b ≡ false → text_less b c ≡ false → text_less a c ≡ false
unfolding text_less
text_less-negtrans a b [] h k = ground arith
text_less-negtrans [] [] (e ∷ u) h k = cc
text_less-negtrans [] (d ∷ t) (e ∷ u) h k = cc
text_less-negtrans (c ∷ s) [] (e ∷ u) h k = cc
text_less-negtrans (c ∷ s) (d ∷ t) (e ∷ u) h k = ground (arith, text_less-negtrans s t u)

-- The comparison of the types, keys and names.
abbrev rank : Bool → ItemType → ItemType → ℕ → ℕ → Text → Text → Bool
rank desc s t k l m n =
    if not (same_type s t)
    then is_folder s
    else if not (k == l)
    then before_num desc k l
    else if desc
    then text_less n m
    else text_less m n

rank-negtrans :
    (desc : Bool) (s t u : ItemType) (k l m : ℕ) (x y z : Text)
    → rank desc s t k l x y ≡ false
    → rank desc t u l m y z ≡ false
    → rank desc s u k m x z ≡ false
rank-negtrans desc folder folder folder k l m x y z g h =
    ground (arith, text_less-negtrans x y z, text_less-negtrans z y x)
rank-negtrans desc file file file k l m x y z g h =
    ground (arith, text_less-negtrans x y z, text_less-negtrans z y x)
rank-negtrans desc file folder folder k l m x y z g h = refl
rank-negtrans desc file file folder k l m x y z g h = refl
rank-negtrans desc folder file u k l m x y z g h = cc
rank-negtrans desc file folder file k l m x y z g h = cc
rank-negtrans desc folder folder file k l m x y z g h = cc

-- The comparison of the items is a strict weak order.
compare_items-IsWeakOrder :
    (lower : Text → Text) (sort_by : Text) (desc : Bool)
    → IsWeakOrder (compare_items lower sort_by desc)
unfolding compare_items
compare_items-IsWeakOrder lower sort_by desc = record {
  asym = λ a b h. ground (
    arith,
    text_less-asym (lower a.name) (lower b.name),
    text_less-asym (lower b.name) (lower a.name),
  );
  negtrans = λ a b c h k.
      rank-negtrans desc a.type b.type c.type (key_of sort_by a) (key_of sort_by b)
        (key_of sort_by c) (lower a.name) (lower b.name) (lower c.name) h k;
}

order-cases : (k l : ℕ) → (k < l) ⊎ (k ≡ l) ⊎ (l < k)
order-cases k l = elim (Bool-cases (ltb k l)) [
  | inl below ↦ inl (ground (arith, below))
  | inr e ↦ elim (Bool-cases (k == l)) [
    | inl same ↦ inr (inl (ground (arith, same)))
    | inr differ ↦ inr (inr (ground (arith, e, differ)))
  ]
]

-- The order of the dictionary.
abbrev pub LexLeq : Text → Text → Type 0
LexLeq [] t = Unit
LexLeq (c ∷ s) [] = ⊥
LexLeq (c ∷ s) (d ∷ t) = (c < d) ⊎ (c ≡ d) × LexLeq s t

text_less-LexLeq : (s t : Text) → text_less t s ≡ false → LexLeq s t
unfolding text_less
text_less-LexLeq [] t h = tt
text_less-LexLeq (c ∷ s) [] h = cc
text_less-LexLeq (c ∷ s) (d ∷ t) h = elim (order-cases c d) [
  | inl below ↦ inl below
  | inr (inl same) ↦ inr (same, text_less-LexLeq s t (ground (arith, h, same)))
  | inr (inr above) ↦ absurd (ground (arith, h, above))
]

text_less_total : (s t : Text) → text_less s t ≡ false → text_less t s ≡ false → text_eq s t ≡ true
unfolding text_less text_eq
text_less_total [] [] g h = refl
text_less_total [] (d ∷ t) g h = cc
text_less_total (c ∷ s) [] g h = cc
text_less_total (c ∷ s) (d ∷ t) g h = ground (arith, text_less_total s t)

text_less_irrefl : (s : Text) → text_less s s ≡ false
unfolding text_less
text_less_irrefl [] = refl
text_less_irrefl (c ∷ s) = ground (arith, text_less_irrefl s)

-- Neither of two names is less than the other exactly where they are equal.
text_less-ties : (s t : Text) → (not (text_less s t) && not (text_less t s)) ≡ text_eq s t
text_less-ties s t = elim (Bool-cases (text_eq s t)) [
  | inl same ↦
      let e = (text_eq_iff s t).0 same in rw e (ground (arith, text_less_irrefl t, text_eq_refl t))
  | inr differ ↦ ground (arith, differ, text_less_total s t)
]

rank-ties :
    (desc : Bool) (s t : ItemType) (k l : ℕ) (x y : Text)
    → (not (rank desc s t k l x y) && not (rank desc t s l k y x))
      ≡ (same_type s t && k == l && text_eq x y)
rank-ties desc folder file k l x y = refl
rank-ties desc file folder k l x y = refl
rank-ties true folder folder k l x y = ground (arith, text_less-ties x y)
rank-ties false folder folder k l x y = ground (arith, text_less-ties x y)
rank-ties true file file k l x y = ground (arith, text_less-ties x y)
rank-ties false file file k l x y = ground (arith, text_less-ties x y)

-- What the parameter sortBy asks to compare: sizes, times, or neither.
abbrev pub asked_key : Text → BrowserItem → ℕ
asked_key sort_by a =
    if text_eq sort_by (codes "size")
    then size_of a.size
    else if text_eq sort_by (codes "modified") || text_eq sort_by (codes "modifiedDate")
    then a.modified_at
    else 0

asked : (sort_by : Text) (a : BrowserItem) → key_of sort_by a ≡ asked_key sort_by a
unfolding one_of
asked sort_by a = ground arith

-- Smaller keys come first, or greater ones where the order is descending; and so with names.
abbrev pub KeyLess : Bool → ℕ → ℕ → Type 0
KeyLess true k l = l < k
KeyLess false k l = k < l

abbrev pub NameLeq : Bool → Text → Text → Type 0
NameLeq true s t = LexLeq t s
NameLeq false s t = LexLeq s t

-- An item may come before another: a folder before a file; of one type, by the key that is asked for;
-- and with one key, by the name without regard to case.
abbrev pub MayPrecede : (Text → Text) → Text → Bool → BrowserItem → BrowserItem → Type 0
MayPrecede lower sort_by desc a b =
    (a.type ≡ folder) × (b.type ≡ file)
    ⊎ (a.type ≡ b.type)
      × (KeyLess desc (asked_key sort_by a) (asked_key sort_by b)
          ⊎ (asked_key sort_by a ≡ asked_key sort_by b)
            × NameLeq desc (lower a.name) (lower b.name))

type-cases :
    (s t : ItemType)
    → (same_type s t ≡ true) × (s ≡ t)
      ⊎ (s ≡ folder) × (t ≡ file)
      ⊎ (same_type s t ≡ false) × (is_folder t ≡ true) × (same_type t s ≡ false)
type-cases folder folder = inl (refl, refl)
type-cases file file = inl (refl, refl)
type-cases folder file = inr (inl (refl, refl))
type-cases file folder = inr (inr (refl, refl, refl))

same_type_comm : (s t : ItemType) → same_type s t ≡ same_type t s
same_type_comm folder folder = refl
same_type_comm file file = refl
same_type_comm folder file = refl
same_type_comm file folder = refl

precede-key :
    (desc : Bool) (k l : ℕ) (x y : Text)
    → (if not (l == k) then before_num desc l k else if desc then text_less x y else text_less y x)
      ≡ false
    → KeyLess desc k l ⊎ (k ≡ l) × NameLeq desc x y
precede-key true k l x y h = elim (order-cases k l) [
  | inl below ↦ absurd (ground (arith, h, below))
  | inr (inl same) ↦ inr (same, text_less-LexLeq y x (ground (arith, h, same)))
  | inr (inr above) ↦ inl above
]
precede-key false k l x y h = elim (order-cases k l) [
  | inl below ↦ inl below
  | inr (inl same) ↦ inr (same, text_less-LexLeq x y (ground (arith, h, same)))
  | inr (inr above) ↦ absurd (ground (arith, h, above))
]

compare_items-MayPrecede :
    (lower : Text → Text) (sort_by : Text) (desc : Bool) (a b : BrowserItem)
    → compare_items lower sort_by desc b a ≡ false
    → MayPrecede lower sort_by desc a b
unfolding compare_items
compare_items-MayPrecede lower sort_by desc a b h = elim (type-cases a.type b.type) [
  | inl (same, e) ↦
      let keyed =
        precede-key desc (key_of sort_by a) (key_of sort_by b) (lower a.name) (lower b.name)
          (ground (arith, h, same, same_type_comm a.type b.type)) in
      inr (
        e,
        subst₂ (λ k l. KeyLess desc k l ⊎ (k ≡ l) × NameLeq desc (lower a.name) (lower b.name))
            (asked sort_by a) (asked sort_by b) keyed,
      )
  | inr (inl apart) ↦ inl apart
  | inr (inr (other, is_f, back)) ↦ absurd (ground (arith, h, is_f, back))
]

-- Each item may precede all after it.
abbrev pub AllAfter : (BrowserItem → BrowserItem → Type 0) → BrowserItem → List BrowserItem → Type 0
AllAfter May x [] = Unit
AllAfter May x (y ∷ ys) = May x y × AllAfter May x ys

abbrev pub IsOrdered : (BrowserItem → BrowserItem → Type 0) → List BrowserItem → Type 0
IsOrdered May [] = Unit
IsOrdered May (x ∷ xs) = AllAfter May x xs × IsOrdered May xs

-- Nothing that is asked for tells the items apart.
abbrev pub is_level : (Text → Text) → Text → BrowserItem → BrowserItem → Bool
is_level lower sort_by a b =
    same_type a.type b.type
    && asked_key sort_by a == asked_key sort_by b
    && text_eq (lower a.name) (lower b.name)

module _ (lower : Text → Text) (sort_by : Text) (desc : Bool) where
  abbrev less : BrowserItem → BrowserItem → Bool
  less = compare_items lower sort_by desc

  abbrev May : BrowserItem → BrowserItem → Type 0
  May = MayPrecede lower sort_by desc

  NoneBefore-AllAfter :
      (x : BrowserItem) (ys : List BrowserItem) → NoneBefore less x ys → AllAfter May x ys
  NoneBefore-AllAfter x [] n = tt
  NoneBefore-AllAfter x (y ∷ ys) n =
      (compare_items-MayPrecede lower sort_by desc x y n.0, NoneBefore-AllAfter x ys n.1)

  IsSorted-IsOrdered : (xs : List BrowserItem) → IsSorted less xs → IsOrdered May xs
  IsSorted-IsOrdered [] s = tt
  IsSorted-IsOrdered (x ∷ xs) s = (NoneBefore-AllAfter x xs s.0, IsSorted-IsOrdered xs s.1)

  ties-is_level : (a b : BrowserItem) → ties less a b ≡ is_level lower sort_by a b
  unfolding compare_items
  ties-is_level a b =
      rank-ties desc a.type b.type (key_of sort_by a) (key_of sort_by b) (lower a.name)
        (lower b.name)
      ∙ ap₂ (λ k l. same_type a.type b.type && k == l && text_eq (lower a.name) (lower b.name))
          (asked sort_by a) (asked sort_by b)

-- The items come out rearranged: whatever stands before another may precede it, folders before files,
-- then by the key that is asked for in the direction that is asked for, then by name without regard to
-- case in that direction; and those that none of this tells apart stay in the order that they had.
pub sort_browser_items-IsOrdered :
    (lower : Text → Text) (sort_by order : Text) (items : List BrowserItem)
    → let sorted = sort_browser_items lower sort_by order items in
      IsOrdered (MayPrecede lower sort_by (is_desc order)) sorted
      × Perm sorted items
      × ((a : BrowserItem)
          → select (is_level lower sort_by a) sorted ≡ select (is_level lower sort_by a) items)
unfolding sort_browser_items
sort_browser_items-IsOrdered lower sort_by order items =
    let desc = is_desc order in
    let o = compare_items-IsWeakOrder lower sort_by desc in
    (
      IsSorted-IsOrdered lower sort_by desc _ (slice_stable-IsSorted _ o items),
      slice_stable-perm _ o items,
      λ a. rw (sym (fun_ext (ties-is_level lower sort_by desc a))) (slice_stable-ties _ o a items),
    )
