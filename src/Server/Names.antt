-- ===== src/Server/Names.antt =====
-- Names of files and folders: normalizeNodeName of backend/internal/http/folders.go, and
-- filepath.Base of the standard library.
use mathlib.Core.List.{reverse}
use personal_space.Prelude.{
  ℕ, ◌≡◌, refl, false, [], ◌∷◌, ◌==◌, if◌then◌else◌, Text, codes, trim_space, contains_code, arith,
}

-- strings.ReplaceAll(s, c, "") for a one-character pattern
unfoldable pub delete_code : ℕ → Text → Text
delete_code d [] = []
delete_code d (c ∷ s) = if c == d then delete_code d s else c ∷ delete_code d s

unfoldable pub normalize_node_name : Text → Text
normalize_node_name name = delete_code b'/' (delete_code 92 (trim_space name))

abbrev strip_slashes : Text → Text
strip_slashes [] = []
strip_slashes (c ∷ s) = if c == b'/' then strip_slashes s else c ∷ s

abbrev until_slash : Text → Text
until_slash [] = []
until_slash (c ∷ s) = let rest = until_slash s in if c == b'/' then [] else c ∷ rest

abbrev or_slash : Text → Text
or_slash [] = codes "/"
or_slash s = s

-- filepath.Base
unfoldable pub base : Text → Text
base [] = codes "."
base s = or_slash (reverse (until_slash (strip_slashes (reverse s))))

delete_code-absent : (d : ℕ) (s : Text) → contains_code d (delete_code d s) ≡ false
unfolding delete_code contains_code
delete_code-absent d [] = refl
delete_code-absent d (c ∷ s) = ground (arith, delete_code-absent d s)

delete_code-keeps :
    (d e : ℕ) (s : Text) → contains_code e s ≡ false → contains_code e (delete_code d s) ≡ false
unfolding delete_code contains_code
delete_code-keeps d e [] h = refl
delete_code-keeps d e (c ∷ s) h = ground (arith, delete_code-keeps d e s)

-- A normalized name holds no slash and no backslash.
pub normalize_node_name_flat :
    (name : Text)
    → (contains_code b'/' (normalize_node_name name) ≡ false)
      × (contains_code 92 (normalize_node_name name) ≡ false)
unfolding normalize_node_name
normalize_node_name_flat name = (
  delete_code-absent b'/' (delete_code 92 (trim_space name)),
  delete_code-keeps b'/' 92 (delete_code 92 (trim_space name))
      (delete_code-absent 92 (trim_space name)),
)
