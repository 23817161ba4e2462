-- ===== src/Previews/Runtime.antt =====
-- backend/internal/http/runtime_settings.go: the switches for sharing and previews.
use personal_space.Prelude.{Bool, true, false, Option, none, some, String, List, if◌then◌else◌}
use personal_space.Database.Rows.{Json, SettingRow}
use personal_space.Settings.Table.{setting, decode_bool}

pub record SharingRuntimeSettings : Type 0 where
  pub enabled : Bool
  pub public_preview_enabled : Bool
  pub public_download_enable : Bool

pub record PreviewRuntimeSettings : Type 0 where
  pub enabled : Bool
  pub public_preview_enabled : Bool
  pub media_enabled : Bool
  pub office_enabled : Bool
  pub image_thumbnails : Bool

abbrev or_default : Bool → Option Bool → Bool
or_default default none = default
or_default default (some b) = b

abbrev parsed : Bool → Option Json → Bool
parsed default none = default
parsed default (some raw) = or_default default (decode_bool raw)

-- One key of loadBoolSettings: no row, or a value that is no boolean, leaves the default.
unfoldable pub bool_setting : String → Bool → List SettingRow → Bool
bool_setting key default rows = parsed default (setting false key rows)

-- getSharingRuntimeSettings; `none` is a query that fails.
unfoldable pub get_sharing_runtime_settings : Bool → List SettingRow → Option SharingRuntimeSettings
get_sharing_runtime_settings fault rows =
    if fault
    then none
    else some (record {
      enabled = bool_setting "sharing.enabled" true rows;
      public_preview_enabled = bool_setting "sharing.public_preview_enabled" true rows;
      public_download_enable = bool_setting "sharing.public_download_enabled" true rows;
    })

-- getPreviewRuntimeSettings
unfoldable pub get_preview_runtime_settings : Bool → List SettingRow → Option PreviewRuntimeSettings
get_preview_runtime_settings fault rows =
    if fault
    then none
    else some (record {
      enabled = bool_setting "preview.enabled" true rows;
      public_preview_enabled = bool_setting "preview.public_preview_enabled" true rows;
      media_enabled = bool_setting "preview.media_enabled" true rows;
      office_enabled = bool_setting "preview.office_enabled" false rows;
      image_thumbnails = bool_setting "preview.image_thumbnails_enabled" true rows;
    })
