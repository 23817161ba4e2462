-- ===== src/Folders/Sort.antt =====
-- sortBrowserItems of backend/internal/http/folders.go.
use personal_space.Prelude.{
  ℕ, Bool, true, false, ◌&&◌, ◌||◌, not, Text, codes, text_eq, one_of, List, [], ◌∷◌, Option, none,
  some, ltb, ◌==◌, if◌then◌else◌, to_lower, map,
}

pub data ItemType : Type 0 where
  folder file : ItemType

-- browserItem, without the time of its creation.
pub record BrowserItem : Type 0 where
  pub id : ℕ
  pub name : Text
  pub type : ItemType
  pub parent : Option ℕ
  pub size : Option ℕ
  pub mime : Option Text
  pub extension : Option Text
  pub modified_at : ℕ

-- `<` on strings, by their code points.
unfoldable pub text_less : Text → Text → Bool
text_less s [] = false
text_less [] (d ∷ t) = true
text_less (c ∷ s) (d ∷ t) = ltb c d || c == d && text_less s t

abbrev pub is_folder : ItemType → Bool
is_folder folder = true
is_folder file = false

abbrev pub same_type : ItemType → ItemType → Bool
same_type folder folder = true
same_type file file = true
same_type _ _ = false

abbrev pub size_of : Option ℕ → ℕ
size_of none = 0
size_of (some n) = n

-- `<`, or `>` where the order is descending
abbrev pub before_num : Bool → ℕ → ℕ → Bool
before_num desc a b = if desc then ltb b a else ltb a b

-- `lower` is strings.ToLower, which knows the cases of all of Unicode.
abbrev pub before_name : (Text → Text) → Bool → BrowserItem → BrowserItem → Bool
before_name lower desc a b =
    if desc
    then text_less (lower b.name) (lower a.name)
    else text_less (lower a.name) (lower b.name)

-- The key of the switch; two items of one type never differ by type, and other names sort by name.
abbrev pub key_of : Text → BrowserItem → ℕ
key_of sort_by a =
    if one_of sort_by ("size" ∷ [])
    then size_of a.size
    else if one_of sort_by ("modified" ∷ "modifiedDate" ∷ [])
    then a.modified_at
    else 0

-- The function `compare`.
unfoldable pub compare_items : (Text → Text) → Text → Bool → BrowserItem → BrowserItem → Bool
compare_items lower sort_by desc a b =
    if not (same_type a.type b.type)
    then is_folder a.type
    else if not (key_of sort_by a == key_of sort_by b)
    then before_num desc (key_of sort_by a) (key_of sort_by b)
    else before_name lower desc a b

-- sort.SliceStable: an item goes before the first one that it is not after.
unfoldable pub insert_stable {ℓ} : {A : Type ℓ} → (A → A → Bool) → A → List A → List A
insert_stable less x [] = x ∷ []
insert_stable less x (y ∷ ys) =
    let rest = insert_stable less x ys in if less y x then y ∷ rest else x ∷ y ∷ ys

unfoldable pub slice_stable {ℓ} : {A : Type ℓ} → (A → A → Bool) → List A → List A
slice_stable less [] = []
slice_stable less (x ∷ xs) = insert_stable less x (slice_stable less xs)

-- To strings.EqualFold the long s, U+017F, is an s as well.
abbrev short_s : ℕ → ℕ
short_s c = if c == 383 then b's' else c

-- strings.EqualFold(order, "desc")
unfoldable pub is_desc : Text → Bool
is_desc order = text_eq (to_lower (map short_s order)) (codes "desc")

-- sortBrowserItems
unfoldable pub sort_browser_items :
    (Text → Text) → Text → Text → List BrowserItem → List BrowserItem
sort_browser_items lower sort_by order items =
    slice_stable (compare_items lower sort_by (is_desc order)) items
