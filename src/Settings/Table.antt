-- ===== src/Settings/Table.antt =====
-- The table system_settings: reading a value, decoding it, and the upsert of
-- backend/internal/settings/upload.go.
use text.Mathlib.Text.{◌==◌ as str_eq}
use text.Mathlib.TextEquality.{eq_iff}
use personal_space.Prelude.{
  ◌≡◌, Bool, false, Option, none, some, String, List, [], ◌∷◌, Text, if◌then◌else◌, find, ℤ, pos,
  arith,
}
use personal_space.Database.Rows.{Json, null, bool, number, string, SettingRow}

abbrev pub value_of : Option SettingRow → Option Json
value_of none = none
value_of (some row) = some row.value

-- SELECT value FROM system_settings WHERE key=$1; a failed query is `none`, as a missing row is.
unfoldable pub setting : Bool → String → List SettingRow → Option Json
setting fault key rows = if fault then none else value_of (find (λ row. str_eq row.key key) rows)

-- INSERT … ON CONFLICT (key) DO UPDATE
unfoldable pub upsert : String → Json → List SettingRow → List SettingRow
upsert key value [] = record { key = key; value = value } ∷ []
upsert key value (row ∷ rows) =
    if str_eq row.key key
    then record { key = key; value = value } ∷ rows
    else row ∷ upsert key value rows

-- json.Unmarshal into a string, a number and a bool: `null` leaves the variable as it was.
abbrev pub decode_string : Text → Json → Option Text
decode_string now (string s) = some s
decode_string now null = some now
decode_string now _ = none

abbrev pub decode_int64 : Json → Option ℤ
decode_int64 (number n) = some n
decode_int64 null = some (pos 0)
decode_int64 _ = none

abbrev pub decode_bool : Json → Option Bool
decode_bool (bool b) = some b
decode_bool null = some false
decode_bool _ = none

pub setting-upsert :
    (key j : String) (value : Json) (rows : List SettingRow)
    → setting false j (upsert key value rows)
      ≡ (if str_eq key j then some value else setting false j rows)
unfolding setting upsert
setting-upsert key j value [] = ground arith
setting-upsert key j value (row ∷ rows) =
    ground
      (arith, setting-upsert key j value rows, eq_iff row.key key, eq_iff row.key j, eq_iff key j)
