-- ===== src/Previews/Content.antt =====
-- The previews of texts and tables: getFilePreviewContent, getCSVPreviewContent, getFilePreviewInfo and
-- listFilePreviewJobs of backend/internal/http/files.go.
use personal_space.Prelude.{
  ℕ, ◌+◌, ◌*◌, ◌^◌, int64_limit, Bool, true, false, ◌&&◌, ◌||◌, not, String, Text, codes, text_eq,
  List, [], ◌∷◌, Option, none, some, Result, ok, err, ltb, leb, ◌==◌, if◌then◌else◌, length, take,
  any, find, ℤ, pos, negsuc, stop, stop_if, some_or, lift, gets, return, ◌>>=◌, ◌>>◌,
}
use personal_space.Database.Rows.{Json, FileRow, PreviewRow, JobRow, SettingRow, is_live}
use personal_space.Storage.Path.{CleanPath, StorageError}
use personal_space.Storage.Files.{Bytes, DiskFaults, get_stream}
use personal_space.Settings.Table.{setting, decode_int64}
use personal_space.Server.World.{Response, respond, Action, Handler, on_disk}
use personal_space.Previews.Runtime.{get_preview_runtime_settings}
use personal_space.Previews.Mode.{
  Category, Method, text_partial, detect_preview_mode, is_csv_preview_candidate,
  preview_allowed_by_config, recommended_preview_job_types, preview_needs_generation,
}
use personal_space.Previews.Csv.{detect_csv_delimiter}
use personal_space.Folders.Sort.{slice_stable}
use personal_space.Folders.Listing.{select}

-- The JSON of a text preview and of a table.
pub record TextContent : Type 0 where
  pub file : ℕ
  pub category : Category
  pub content : Bytes
  pub truncated : Bool
  pub limit : ℕ

pub record TableContent : Type 0 where
  pub file : ℕ
  pub delimiter : ℕ
  pub rows : List (List Text)
  pub max_rows : ℕ
  pub limit : ℕ
  pub truncated_bytes : Bool
  pub truncated_rows : Bool

-- `panicked` is the empty answer of chi's Recoverer to a handler that panics.
pub data ContentReply : Type 0 where
  error : String → ContentReply
  text_content : TextContent → ContentReply
  table_content : TableContent → ContentReply
  panicked : ContentReply

abbrev pub fail : ℕ → String → Response ContentReply
fail code message = respond code (error message)

abbrev positive_or : ℕ → ℤ → ℕ
positive_or default (pos n) = if n == 0 then default else n
positive_or default (negsuc n) = default

abbrev number_or : ℕ → Option ℤ → ℕ
number_or default none = default
number_or default (some n) = positive_or default n

abbrev setting_or : ℕ → Option Json → ℕ
setting_or default none = default
setting_or default (some raw) = number_or default (decode_int64 raw)

abbrev mebibyte : ℕ
mebibyte = 1024 * 1024

-- previewTextMaxBytes
unfoldable pub preview_text_max_bytes : Bool → List SettingRow → ℕ
preview_text_max_bytes fault rows =
    setting_or mebibyte (setting fault "preview.text_max_bytes" rows)

-- previewCSVMaxRows
unfoldable pub preview_csv_max_rows : Bool → List SettingRow → ℕ
preview_csv_max_rows fault rows = setting_or 500 (setting fault "preview.csv_max_rows" rows)

-- The records that encoding/csv reads from these bytes with this delimiter, up to the end or to the
-- first error.
abbrev pub CsvReader : Type 0
CsvReader = ℕ → Bytes → List (List Text)

pub record ContentFaults : Type 0 where
  pub load : Bool
  pub settings : Bool
  pub text_limit : Bool
  pub row_limit : Bool
  pub opening : DiskFaults
  pub read : Bool

abbrev pub opened_or : Result StorageError Bytes → Action ContentReply Bytes
opened_or (ok content) = return content
opened_or (err e) = stop (fail 404 "file data not found")

-- `io.LimitReader(stream, limit+1)`: at the greatest int64 the sum wraps to a negative number, and
-- nothing is read.
abbrev pub limited : ℕ → Bytes → Bytes
limited limit content = if ltb (limit + 1) int64_limit then take (limit + 1) content else []

-- `io.ReadAll(io.LimitReader(stream, limit+1))`, cut at the limit, and whether it was cut.
unfoldable pub read_limited : ℕ → Bytes → Bytes × Bool
read_limited limit content =
    let bytes = limited limit content in
    if ltb limit (length bytes) then (take limit bytes, true) else (bytes, false)

-- `make([][]string, 0, maxRows)`, at 24 bytes a row, panics above what one allocation may take on a
-- 64-bit machine.
unfoldable pub makes_rows : ℕ → Bool
makes_rows max = leb (24 * max) (2 ^ 48)

-- A table has two mebibytes at least.
abbrev pub table_limit : ℕ → ℕ
table_limit limit = if ltb limit (2 * mebibyte) then 2 * mebibyte else limit

-- The loop over the records: at most `max`, and whether there is one more.
unfoldable pub read_rows : ℕ → List (List Text) → List (List Text) × Bool
read_rows max records = (take max records, ltb max (length records))

abbrev pub is_partial : Method → Bool
is_partial text_partial = true
is_partial _ = false

abbrev pub allowed_or : Result String (Unit {0}) → Result (Response ContentReply) (Unit {0})
allowed_or (ok u) = ok u
allowed_or (err reason) = err (fail 403 reason)

module _ (root : CleanPath) (csv : CsvReader) (faults : ContentFaults) where
  -- getCSVPreviewContent, and publicShareCSVPreviewContent
  unfoldable pub csv_preview_content : FileRow → ℕ → Handler ContentReply
  csv_preview_content rec limit = do
    max ← gets (λ w. preview_csv_max_rows faults.row_limit w.db.settings)
    opened ← on_disk (get_stream root faults.opening rec.storage_key)
    content ← opened_or opened
    stop_if faults.read (fail 500 "could not read csv preview content")
    let (bytes, cut) = read_limited (table_limit limit) content
    let delimiter = detect_csv_delimiter bytes
    stop_if (not (makes_rows max)) (respond 500 panicked)
    let (rows, more) = read_rows max (csv delimiter bytes)
    return (
        respond 200 (
          table_content (record {
            file = rec.id;
            delimiter = delimiter;
            rows = rows;
            max_rows = max;
            limit = table_limit limit;
            truncated_bytes = cut;
            truncated_rows = more;
          })))

  abbrev text_preview_content : FileRow → ℕ → Handler ContentReply
  text_preview_content rec limit = do
    opened ← on_disk (get_stream root faults.opening rec.storage_key)
    content ← opened_or opened
    stop_if faults.read (fail 500 "could not read file preview content")
    let (bytes, cut) = read_limited limit content
    return (
        respond 200 (
          text_content (record {
            file = rec.id;
            category = (detect_preview_mode rec).category;
            content = bytes;
            truncated = cut;
            limit = limit;
          })))

  -- The part that getFilePreviewContent and publicShareFilePreviewContent share: from the mode of the
  -- file on.
  unfoldable pub preview_content : Bool → FileRow → Handler ContentReply
  preview_content public rec = do
    let mode = detect_preview_mode rec
    stored ← gets (λ w. get_preview_runtime_settings faults.settings w.db.settings)
    cfg ← some_or stored (fail 500 "could not load preview settings")
    lift (allowed_or (preview_allowed_by_config cfg mode.category public))
    stop_if (not mode.supported || not (is_partial mode.method))
        (fail 400 "text preview is not available for this file type")
    limit ← gets (λ w. preview_text_max_bytes faults.text_limit w.db.settings)
    if is_csv_preview_candidate rec
        then csv_preview_content rec limit
        else text_preview_content rec limit

-- A preview as it is listed, and what getFilePreviewInfo says of a file.
pub record PreviewInfo : Type 0 where
  pub file : ℕ
  pub category : Category
  pub method : Option Method
  pub supported : Bool
  pub text_max_bytes : ℕ
  pub generated : List PreviewRow
  pub thumbnail_ready : Bool
  pub pdf_ready : Bool
  pub needs_generation : Bool
  pub recommended : List String
  pub reason : Option String

pub data InfoReply : Type 0 where
  error : String → InfoReply
  preview_info : PreviewInfo → InfoReply
  jobs : ℕ → List JobRow → List PreviewRow → InfoReply

abbrev info_fail : ℕ → String → Response InfoReply
info_fail code message = respond code (error message)

-- listFilePreviews, up to the order of the rows.
unfoldable pub list_file_previews : ℕ → List PreviewRow → List PreviewRow
list_file_previews file [] = []
list_file_previews file (p ∷ ps) =
    let rest = list_file_previews file ps in if p.file == file then p ∷ rest else rest

abbrev pub is_ready : Text → PreviewRow → Bool
is_ready kind p = text_eq p.status (codes "ready") && text_eq p.kind kind

-- The JSON of an allowed preview; a refused one has the method "disabled", here `none`.
unfoldable pub info_of : ℕ → FileRow → Result String (Unit {0}) → List PreviewRow → PreviewInfo
info_of limit rec allowed rows =
    let mode = detect_preview_mode rec in
    let thumbnail = any (is_ready (codes "thumbnail")) rows in
    let pdf = any (is_ready (codes "pdf")) rows in
    record {
      file = rec.id;
      category = mode.category;
      method = elim allowed [ ok u ↦ some mode.method | err reason ↦ none ];
      supported = elim allowed [ ok u ↦ mode.supported | err reason ↦ false ];
      text_max_bytes = limit;
      generated = rows;
      thumbnail_ready = thumbnail;
      pdf_ready = pdf;
      needs_generation = preview_needs_generation mode.category thumbnail pdf;
      recommended = recommended_preview_job_types mode.category;
      reason = elim allowed [ ok u ↦ none | err reason ↦ some reason ];
    }

pub record InfoFaults : Type 0 where
  pub load : Bool
  pub settings : Bool
  pub previews : Bool
  pub text_limit : Bool
  pub jobs : Bool

-- The part that getFilePreviewInfo and publicShareFilePreviewInfo share.
unfoldable pub preview_info_of : InfoFaults → Bool → FileRow → Handler InfoReply
preview_info_of faults public rec = do
  stored ← gets (λ w. get_preview_runtime_settings faults.settings w.db.settings)
  cfg ← some_or stored (info_fail 500 "could not load preview settings")
  stop_if faults.previews (info_fail 500 "could not load file previews")
  rows ← gets (λ w. list_file_previews rec.id w.db.previews)
  limit ← gets (λ w. preview_text_max_bytes faults.text_limit w.db.settings)
  return (
      respond 200 (
        preview_info (
          info_of limit rec
            (preview_allowed_by_config cfg (detect_preview_mode rec).category public) rows)))

abbrev owned_file : ℕ → ℕ → FileRow → Bool
owned_file id owner f = f.id == id && f.owner == owner && is_live f.deleted_at

-- getFilePreviewInfo
unfoldable pub get_file_preview_info : InfoFaults → Option ℕ → Option ℕ → Handler InfoReply
get_file_preview_info faults user file = do
  owner ← some_or user (info_fail 401 "authentication required")
  id ← some_or file (info_fail 400 "invalid file id")
  stop_if faults.load (info_fail 500 "could not load file metadata")
  found ← gets (λ w. find (owned_file id owner) w.db.files)
  rec ← some_or found (info_fail 404 "file not found")
  preview_info_of faults false rec

-- getFilePreviewContent
unfoldable pub get_file_preview_content :
    CleanPath → CsvReader → ContentFaults → Option ℕ → Option ℕ → Handler ContentReply
get_file_preview_content root csv faults user file = do
  owner ← some_or user (fail 401 "authentication required")
  id ← some_or file (fail 400 "invalid file id")
  stop_if faults.load (fail 500 "could not load file metadata")
  found ← gets (λ w. find (owned_file id owner) w.db.files)
  rec ← some_or found (fail 404 "file not found")
  preview_content root csv faults false rec

abbrev of_file : ℕ → JobRow → Bool
of_file file j = j.file == file

-- ORDER BY created_at DESC
abbrev later : JobRow → JobRow → Bool
later a b = ltb b.created_at a.created_at

-- listFilePreviewJobs: the newest fifty jobs.
unfoldable pub list_file_preview_jobs : InfoFaults → Option ℕ → Option ℕ → Handler InfoReply
list_file_preview_jobs faults user file = do
  owner ← some_or user (info_fail 401 "authentication required")
  id ← some_or file (info_fail 400 "invalid file id")
  stop_if faults.load (info_fail 500 "could not load file metadata")
  found ← gets (λ w. find (owned_file id owner) w.db.files)
  rec ← some_or found (info_fail 404 "file not found")
  stop_if faults.jobs (info_fail 500 "could not list preview jobs")
  rows ← gets (λ w. take 50 (slice_stable later (select (of_file rec.id) w.db.jobs)))
  stop_if faults.previews (info_fail 500 "could not list file previews")
  previews ← gets (λ w. list_file_previews rec.id w.db.previews)
  return (respond 200 (jobs rec.id rows previews))
