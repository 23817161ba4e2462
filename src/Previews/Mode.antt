-- ===== src/Previews/Mode.antt =====
-- detectPreviewMode and the classifications beside it in backend/internal/http/files.go.
use personal_space.Prelude.{
  Bool, true, false, ◌&&◌, ◌||◌, not, Option, none, some, String, Text, List, [], ◌∷◌, codes,
  text_eq, one_of, has_prefix, has_suffix, contains, trim_space, to_lower, if◌then◌else◌, Result,
  ok, err,
}
use personal_space.Database.Rows.{FileRow}
use personal_space.Previews.Runtime.{PreviewRuntimeSettings}

pub data Category : Type 0 where
  text image video audio pdf office binary : Category

pub data Method : Type 0 where
  text_partial stream async_generated unsupported : Method

pub record Mode : Type 0 where
  pub category : Category
  pub method : Method
  pub supported : Bool

-- A missing value is the empty one.
unfoldable pub folded : Option Text → Text
folded none = []
folded (some s) = to_lower (trim_space s)

unfoldable pub is_svg_mime_or_ext : Text → Text → Bool
is_svg_mime_or_ext mime ext = text_eq mime (codes "image/svg+xml") || text_eq ext (codes "svg")

unfoldable pub is_text_like_mime : Text → Bool
is_text_like_mime mime =
    has_prefix mime (codes "text/")
    || one_of mime (
        "application/json" ∷ "application/xml" ∷ "application/javascript" ∷ "application/x-sh"
        ∷ "application/x-httpd-php" ∷ [])

unfoldable pub is_text_like_ext : Text → Bool
is_text_like_ext ext = one_of ext (
    "txt" ∷ "md" ∷ "markdown" ∷ "json" ∷ "xml" ∷ "yaml" ∷ "yml" ∷ "csv" ∷ "log" ∷ "ini" ∷ "env"
    ∷ "conf" ∷ "toml" ∷ "sql" ∷ "js" ∷ "jsx" ∷ "ts" ∷ "tsx" ∷ "html" ∷ "css" ∷ "scss" ∷ "go" ∷ "py"
    ∷ "java" ∷ "c" ∷ "cpp" ∷ "h" ∷ "hpp" ∷ "cs" ∷ "php" ∷ "rb" ∷ "rs" ∷ "swift" ∷ "kt" ∷ "sh"
    ∷ "bash" ∷ "zsh" ∷ "ps1" ∷ "dockerfile" ∷ "makefile" ∷ [])

unfoldable pub is_office_like_mime : Text → Bool
is_office_like_mime mime = one_of mime (
    "application/msword" ∷ "application/vnd.openxmlformats-officedocument.wordprocessingml.document"
    ∷ "application/vnd.ms-excel"
    ∷ "application/vnd.openxmlformats-officedocument.spreadsheetml.sheet"
    ∷ "application/vnd.ms-powerpoint"
    ∷ "application/vnd.openxmlformats-officedocument.presentationml.presentation"
    ∷ "application/vnd.oasis.opendocument.text" ∷ "application/vnd.oasis.opendocument.spreadsheet"
    ∷ "application/vnd.oasis.opendocument.presentation" ∷ "application/rtf" ∷ [])

unfoldable pub is_office_like_ext : Text → Bool
is_office_like_ext ext =
    one_of ext
      ("doc" ∷ "docx" ∷ "xls" ∷ "xlsx" ∷ "ppt" ∷ "pptx" ∷ "odt" ∷ "ods" ∷ "odp" ∷ "rtf" ∷ [])

abbrev pub mode : Category → Method → Bool → Mode
mode c m s = record { category = c; method = m; supported = s }

-- The switch of detectPreviewMode, on the folded type and extension.
unfoldable pub mode_of : Text → Text → Mode
mode_of mime ext =
    if is_svg_mime_or_ext mime ext
    then mode text text_partial true
    else if has_prefix mime (codes "image/")
    then mode image stream true
    else if has_prefix mime (codes "video/")
    then mode video stream true
    else if has_prefix mime (codes "audio/")
    then mode audio stream true
    else if text_eq mime (codes "application/pdf")
    then mode pdf stream true
    else if is_office_like_mime mime || is_office_like_ext ext
    then mode office async_generated true
    else if is_text_like_mime mime || is_text_like_ext ext
    then mode text text_partial true
    else mode binary unsupported false

-- detectPreviewMode
unfoldable pub detect_preview_mode : FileRow → Mode
detect_preview_mode rec = mode_of (folded rec.mime) (folded rec.extension)

-- isRiskyInlinePreviewType
unfoldable pub is_risky_inline_preview_type : FileRow → Bool
is_risky_inline_preview_type rec =
    one_of (folded rec.mime) (
      "text/html" ∷ "application/xhtml+xml" ∷ "image/svg+xml" ∷ "application/xml" ∷ "text/xml" ∷ [])
    || one_of (folded rec.extension) ("html" ∷ "htm" ∷ "xhtml" ∷ "svg" ∷ "xml" ∷ [])

abbrev pub is_media : Category → Bool
is_media video = true
is_media audio = true
is_media _ = false

abbrev pub is_office : Category → Bool
is_office office = true
is_office _ = false

-- previewAllowedByConfig; an error is its reason.
unfoldable pub preview_allowed_by_config :
    PreviewRuntimeSettings → Category → Bool → Result String (Unit {0})
preview_allowed_by_config cfg category public =
    if not cfg.enabled
    then err "preview is disabled by admin settings"
    else if public && not cfg.public_preview_enabled
    then err "public preview is disabled by admin settings"
    else if is_media category && not cfg.media_enabled
    then err "media preview is disabled by admin settings"
    else if is_office category && not cfg.office_enabled
    then err "office preview is disabled by admin settings"
    else ok tt

-- isCSVPreviewCandidate
unfoldable pub is_csv_preview_candidate : FileRow → Bool
is_csv_preview_candidate rec =
    text_eq (folded rec.extension) (codes "csv")
    || contains (folded rec.mime) (codes "csv")
    || has_suffix (to_lower (trim_space rec.name)) (codes ".csv")

-- recommendedPreviewJobTypes
abbrev pub recommended_preview_job_types : Category → List String
recommended_preview_job_types image = "thumbnail" ∷ "metadata" ∷ []
recommended_preview_job_types office = "office_to_pdf" ∷ "metadata" ∷ []
recommended_preview_job_types _ = "metadata" ∷ []

-- previewNeedsGeneration
abbrev pub preview_needs_generation : Category → Bool → Bool → Bool
preview_needs_generation image thumbnail_ready pdf_ready = not thumbnail_ready
preview_needs_generation office thumbnail_ready pdf_ready = not pdf_ready
preview_needs_generation _ thumbnail_ready pdf_ready = false
