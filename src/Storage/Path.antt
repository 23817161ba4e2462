-- ===== src/Storage/Path.antt =====
-- The paths of backend/internal/storage/local.go: `path/filepath`'s Clean and Join on components,
-- and `resolve`.
use mathlib.Core.List.{reverse}
use personal_space.Prelude.{
  ℕ, Bool, ◌||◌, List, [], ◌∷◌, ◌++◌, ◌==◌, if◌then◌else◌, Text, codes, text_eq, has_prefix,
  trim_space, is_empty, Result, ok, err,
}

pub data StorageError : Type 0 where
  key_required invalid_key invalid_path : StorageError
  canceled io_failed not_exist offset_mismatch copy_failed invalid_range : StorageError

abbrev pub prepend : ℕ → List Text → List Text
prepend c [] = (c ∷ []) ∷ []
prepend c (p ∷ ps) = (c ∷ p) ∷ ps

-- strings.Split(s, sep) for a one-character separator
unfoldable pub split_on : ℕ → Text → List Text
split_on sep [] = [] ∷ []
split_on sep (c ∷ s) = let rest = split_on sep s in if c == sep then [] ∷ rest else prepend c rest

abbrev pub dot : Text
dot = codes "."

abbrev pub dotdot : Text
dotdot = codes ".."

-- A path that Clean has put in order.
pub record CleanPath : Type 0 where
  pub rooted : Bool
  pub parts : List Text

-- One `..`: it drops the component before it, if there is one to drop.
unfoldable pub step_up : Bool → List Text → List Text
step_up rooted [] = if rooted then [] else dotdot ∷ []
step_up rooted (top ∷ stack) = if text_eq top dotdot then dotdot ∷ top ∷ stack else stack

-- One component; the stack has the last component at its head.
unfoldable pub clean_step : Bool → List Text → Text → List Text
clean_step rooted stack part =
    if is_empty part || text_eq part dot
    then stack
    else if text_eq part dotdot
    then step_up rooted stack
    else part ∷ stack

unfoldable pub clean_from : Bool → List Text → List Text → List Text
clean_from rooted stack [] = stack
clean_from rooted stack (part ∷ rest) = clean_from rooted (clean_step rooted stack part) rest

unfoldable pub clean_parts : Bool → List Text → CleanPath
clean_parts rooted ps = record { rooted = rooted; parts = reverse (clean_from rooted [] ps) }

-- filepath.Clean
unfoldable pub clean : Text → CleanPath
unfolding clean_parts clean_from clean_step step_up
clean s = clean_parts (has_prefix s (codes "/")) (split_on b'/' s)

abbrev join_slash : List Text → Text
join_slash [] = []
join_slash (p ∷ []) = p
join_slash (p ∷ ps) = p ++ (b'/' ∷ join_slash ps)

abbrev or_dot : Text → Text
or_dot [] = dot
or_dot s = s

-- The text of a cleaned path.
unfoldable pub render : CleanPath → Text
render c = if c.rooted then b'/' ∷ join_slash c.parts else or_dot (join_slash c.parts)

-- filepath.Join of a cleaned path and another one below it
unfoldable pub join : CleanPath → CleanPath → CleanPath
unfolding clean_parts clean_from clean_step step_up
join a b = clean_parts a.rooted (a.parts ++ b.parts)

abbrev pub trim_slash : Text → Text
trim_slash [] = []
trim_slash (c ∷ s) = if c == b'/' then s else c ∷ s

unfoldable pub inside : CleanPath → CleanPath → Bool
inside root resolved =
    text_eq (render resolved) (render root)
    || has_prefix (render resolved) (render root ++ codes "/")

unfoldable pub resolve_trimmed : CleanPath → Text → Result StorageError CleanPath
resolve_trimmed root trimmed =
    let c = clean (trim_slash trimmed) in
    if text_eq (render c) dot || has_prefix (render c) dotdot
    then err invalid_key
    else if inside root (join root c)
    then ok (join root c)
    else err invalid_path

-- LocalStorage.resolve
unfoldable pub resolve : CleanPath → Text → Result StorageError CleanPath
unfolding resolve_trimmed inside clean join
resolve root key =
    if is_empty (trim_space key) then err key_required else resolve_trimmed root (trim_space key)
