-- ===== src/Settings/UploadRoundtrip.antt =====
-- What an administrator stores as the upload policy is what uploads read.
use mathlib.Core.Path.{subst}
use personal_space.Prelude.{
  ◌≡◌, ◌⊎◌, false, Option, none, some, List, Text, text_eq, text_eq_iff, ok, if◌then◌else◌, ℤ,
  arith,
}
use personal_space.Database.Rows.{SettingRow, string}
use personal_space.Settings.Table.{setting, upsert, setting-upsert}
use personal_space.Settings.Upload.{
  UploadSettings, SettingsFaults, unlimited, custom, normalize, get_upload_settings,
  validate_upload_settings, update_upload_settings, mode_key, max_key, payload, both, read_mode,
  read_max,
}

abbrev pub no_faults : SettingsFaults
no_faults = record { mode = false; max = false }

stored : UploadSettings → List SettingRow → List SettingRow
stored input before = upsert max_key (payload input) (upsert mode_key (string input.mode) before)

stored_mode :
    (input : UploadSettings) (before : List SettingRow)
    → setting false mode_key (stored input before) ≡ some (string input.mode)
unfolding stored
stored_mode input before = simp setting-upsert

stored_max :
    (input : UploadSettings) (before : List SettingRow)
    → setting false max_key (stored input before) ≡ some (payload input)
unfolding stored
stored_max input before = simp setting-upsert

-- A policy that UpdateUploadSettings accepts is read back as it was given, but for a bound that is
-- given beside the mode "unlimited", which is dropped.
pub get-update :
    (input : UploadSettings) (before after : List SettingRow)
    → update_upload_settings false input before ≡ ok after
    → get_upload_settings no_faults after
      ≡ some (record {
        mode = input.mode;
        max_bytes = if text_eq input.mode custom then input.max_bytes else none;
      })
unfolding stored get_upload_settings update_upload_settings validate_upload_settings normalize
get-update input before after h = ground (
  arith,
  stored_mode input before,
  stored_max input before,
  text_eq_iff input.mode custom,
  text_eq_iff input.mode unlimited,
)

abbrev IsPolicy : UploadSettings → Type 0
IsPolicy s = ((s.mode ≡ unlimited) × (s.max_bytes ≡ none)) ⊎ (s.mode ≡ custom)

normalize-IsPolicy : (mode : Text) (max : Option ℤ) → IsPolicy (normalize mode max)
unfolding normalize
normalize-IsPolicy mode max = ground (arith, text_eq_iff mode unlimited, text_eq_iff mode custom)

both-IsPolicy :
    (mode : Option Text) (max : Option (Option ℤ)) (s : UploadSettings)
    → both mode max ≡ some s
    → IsPolicy s
both-IsPolicy (some mode) (some max) s h =
    let e : normalize mode max ≡ s = cc in subst IsPolicy e (normalize-IsPolicy mode max)
both-IsPolicy none max s h = cc
both-IsPolicy (some mode) none s h = cc

-- Whatever the table holds and whichever query fails, a policy that is read is one of the two: no
-- bound at all, or the mode "custom".
pub get-IsPolicy :
    (faults : SettingsFaults) (rows : List SettingRow) (s : UploadSettings)
    → get_upload_settings faults rows ≡ some s
    → ((s.mode ≡ unlimited) × (s.max_bytes ≡ none)) ⊎ (s.mode ≡ custom)
unfolding get_upload_settings
get-IsPolicy faults rows s h =
    both-IsPolicy (read_mode (setting faults.mode mode_key rows))
      (read_max (setting faults.max max_key rows)) s h
