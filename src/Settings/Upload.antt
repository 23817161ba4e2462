-- ===== src/Settings/Upload.antt =====
-- backend/internal/settings/upload.go: the policy on the size of one upload.
use personal_space.Prelude.{
  Bool, true, false, ◌&&◌, not, Option, none, some, String, List, Text, codes, text_eq, Result, ok,
  err, if◌then◌else◌, ℤ, is_nonpos,
}
use personal_space.Database.Rows.{Json, null, number, string, SettingRow}
use personal_space.Settings.Table.{setting, upsert, decode_string, decode_int64}

pub record UploadSettings : Type 0 where
  pub mode : Text
  pub max_bytes : Option ℤ

abbrev pub mode_key : String
mode_key = "upload.max_file_size_mode"

abbrev pub max_key : String
max_key = "upload.max_file_size_bytes"

abbrev pub unlimited : Text
unlimited = codes "unlimited"

abbrev pub custom : Text
custom = codes "custom"

-- The two queries that may fail.
pub record SettingsFaults : Type 0 where
  pub mode : Bool
  pub max : Bool

-- The row of the mode; no row, or a failed query, leaves the default.
abbrev pub read_mode : Option Json → Option Text
read_mode none = some unlimited
read_mode (some raw) = decode_string unlimited raw

abbrev pub some_some : Option ℤ → Option (Option ℤ)
some_some none = none
some_some (some n) = some (some n)

-- The row of the bound; `null` is no bound.
abbrev pub read_max : Option Json → Option (Option ℤ)
read_max none = some none
read_max (some null) = some none
read_max (some raw) = some_some (decode_int64 raw)

-- A mode that is not known counts as unlimited, which has no bound.
unfoldable pub normalize : Text → Option ℤ → UploadSettings
normalize mode max =
    if not (text_eq mode unlimited) && not (text_eq mode custom)
    then record { mode = unlimited; max_bytes = none }
    else if text_eq mode unlimited
    then record { mode = mode; max_bytes = none }
    else record { mode = mode; max_bytes = max }

abbrev pub both : Option Text → Option (Option ℤ) → Option UploadSettings
both (some mode) (some max) = some (normalize mode max)
both _ _ = none

-- GetUploadSettings; `none` where a stored value does not decode.
unfoldable pub get_upload_settings : SettingsFaults → List SettingRow → Option UploadSettings
get_upload_settings faults rows =
    both (read_mode (setting faults.mode mode_key rows))
      (read_max (setting faults.max max_key rows))

abbrev positive : Option ℤ → Bool
positive none = false
positive (some n) = not (is_nonpos n)

-- ValidateUploadSettings
unfoldable pub validate_upload_settings : UploadSettings → Bool
validate_upload_settings input =
    if not (text_eq input.mode unlimited) && not (text_eq input.mode custom)
    then false
    else if text_eq input.mode custom
    then positive input.max_bytes
    else true

abbrev pub bound : Option ℤ → Json
bound none = null
bound (some n) = number n

-- maxBytesPayload
abbrev pub payload : UploadSettings → Json
payload input = if text_eq input.mode custom then bound input.max_bytes else null

-- UpdateUploadSettings: `fault` is a failure of its transaction, which then changes nothing.
unfoldable pub update_upload_settings :
    Bool → UploadSettings → List SettingRow → Result String (List SettingRow)
update_upload_settings fault input rows =
    if not (validate_upload_settings input)
    then err "invalid upload settings"
    else if fault
    then err "transaction failed"
    else ok (upsert max_key (payload input) (upsert mode_key (string input.mode) rows))
