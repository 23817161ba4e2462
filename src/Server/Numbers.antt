-- ===== src/Server/Numbers.antt =====
-- strconv.ParseInt(s, 10, 64) of the standard library.
use personal_space.Prelude.{
  ℕ, ◌+◌, ◌-◌, ◌*◌, ◌≡◌, refl, Bool, ◌&&◌, [], ◌∷◌, Option, none, some, ltb, leb, ◌==◌,
  if◌then◌else◌, Text, codes, ℤ, pos, negsuc, int64_limit,
}

abbrev is_digit : ℕ → Bool
is_digit c = leb b'0' c && leb c b'9'

digits_from : ℕ → Text → Option ℕ
digits_from acc [] = some acc
digits_from acc (c ∷ s) =
    let rest = digits_from (acc * 10 + (c - b'0')) s in if is_digit c then rest else none

abbrev digits : Text → Option ℕ
digits [] = none
digits s = digits_from 0 s

abbrev plus : Option ℕ → Option ℤ
plus none = none
plus (some n) = if ltb n int64_limit then some (pos n) else none

abbrev minus : Option ℕ → Option ℤ
minus none = none
minus (some n) =
    if n == 0 then some (pos 0) else if leb n int64_limit then some (negsuc (n - 1)) else none

-- `none` is a syntax or a range error.
unfoldable pub parse_int64 : Text → Option ℤ
unfolding digits_from
parse_int64 [] = none
parse_int64 (c ∷ s) =
    if c == b'+'
    then plus (digits s)
    else if c == b'-'
    then minus (digits s)
    else plus (digits (c ∷ s))

parse_int64_negative : parse_int64 (codes "-12") ≡ some (negsuc 11)
unfolding parse_int64
parse_int64_negative = refl
