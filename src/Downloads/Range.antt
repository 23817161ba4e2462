-- ===== src/Downloads/Range.antt =====
-- parseSingleRange of backend/internal/http/files.go.
use personal_space.Prelude.{
  ℕ, zero, suc, ◌-◌, not, Text, [], ◌∷◌, codes, Option, none, some, ltb, leb, ◌==◌, if◌then◌else◌,
  has_prefix, contains_code, trim_space, is_empty, drop, ℤ, pos, negsuc,
}
use personal_space.Server.Numbers.{parse_int64}

-- The first and the last byte.
pub record Range : Type 0 where
  pub start : ℕ
  pub end : ℤ

abbrev push : ℕ → Option (Text × Text) → Option (Text × Text)
push c none = none
push c (some (left, right)) = some (c ∷ left, right)

-- strings.SplitN(value, "-", 2), where it has two parts
unfoldable pub split_dash : Text → Option (Text × Text)
split_dash [] = none
split_dash (c ∷ s) = let rest = split_dash s in if c == b'-' then some ([], s) else push c rest

-- `size - 1`
abbrev pub last_of : ℕ → ℤ
last_of zero = negsuc 0
last_of (suc n) = pos n

abbrev pub range : ℕ → ℤ → Range
range start end = record { start = start; end = end }

-- `bytes=-n`: the last n bytes.
abbrev pub suffix_range : Option ℤ → ℕ → Option Range
suffix_range (some (pos n)) size =
    if ltb 0 n then some (range (if ltb size n then 0 else size - n) (last_of size)) else none
suffix_range _ size = none

-- A last byte past the end is the last one.
abbrev pub end_range : ℕ → Option ℤ → ℕ → Option Range
end_range start (some (pos end)) size =
    if ltb end start
    then none
    else some (range start (if leb size end then last_of size else pos end))
end_range start _ size = none

abbrev pub start_range : Option ℤ → Text → ℕ → Option Range
start_range (some (pos start)) right size =
    if leb size start
    then none
    else if is_empty right
    then some (range start (last_of size))
    else end_range start (parse_int64 right) size
start_range _ right size = none

abbrev pub parts_range : Option (Text × Text) → ℕ → Option Range
parts_range none size = none
parts_range (some (left, right)) size =
    if is_empty (trim_space left)
    then suffix_range (parse_int64 (trim_space right)) size
    else start_range (parse_int64 (trim_space left)) (trim_space right) size

-- parseSingleRange; `none` is `ok == false`.
unfoldable pub parse_single_range : Text → ℕ → Option Range
parse_single_range header size =
    if not (has_prefix header (codes "bytes="))
    then none
    else if contains_code b',' (drop 6 header)
    then none
    else parts_range (split_dash (drop 6 header)) size
