-- ===== src/Downloads/Stream.antt =====
-- streamOwnedFile of backend/internal/http/files.go, and the part that publicShareFileStream of
-- shares.go shares with it: the gate of an inline preview, and the answer itself.
use personal_space.Prelude.{
  ℕ, Bool, true, false, ◌&&◌, not, String, Text, List, [], ◌∷◌, codes, Option, none, some, Result,
  ok, err, ltb, ◌==◌, if◌then◌else◌, find, trim_space, to_lower, is_empty, one_of, text_eq, pos,
  is_some, stop, stop_if, some_or, lift, gets, return, ◌>>=◌, ◌>>◌,
}
use personal_space.Database.Rows.{Database, FileRow, PreviewRow, is_live}
use personal_space.Storage.Path.{CleanPath, StorageError}
use personal_space.Storage.Files.{Bytes, DiskFaults, stat, get_stream, get_range_stream}
use personal_space.Server.World.{Response, respond, Action, Handler, on_disk}
use personal_space.Previews.Runtime.{get_preview_runtime_settings}
use personal_space.Previews.Mode.{
  Method, text_partial, is_office, detect_preview_mode, is_risky_inline_preview_type,
  preview_allowed_by_config,
}
use personal_space.Downloads.Range.{Range, parse_single_range}

-- What is sent: the bytes with their headers, or a JSON error. `sandbox` is the header
-- Content-Security-Policy, `range` the header Content-Range.
pub record Delivery : Type 0 where
  pub content_type : Text
  pub inline : Bool
  pub sandbox : Bool
  pub size : ℕ
  pub range : Option Range
  pub bytes : Bytes

pub data Reply : Type 0 where
  error : String → Reply
  not_satisfiable : ℕ → Reply
  delivered : Delivery → Reply

abbrev pub fail : ℕ → String → Response Reply
fail code message = respond code (error message)

-- WHERE id=$1 AND owner_id=$2 AND deleted_at IS NULL
abbrev pub owned_file : ℕ → ℕ → FileRow → Bool
owned_file id owner f = f.id == id && f.owner == owner && is_live f.deleted_at

-- fetchOwnedFile, with the answers of streamOwnedFile.
unfoldable pub fetch_owned_file : Bool → ℕ → ℕ → Action Reply FileRow
fetch_owned_file fault owner id = do
  stop_if fault (fail 500 "could not read file metadata")
  found ← gets (λ w. find (owned_file id owner) w.db.files)
  some_or found (fail 404 "file not found")

abbrev ready_preview : ℕ → Text → PreviewRow → Bool
ready_preview file kind p =
    p.file == file
    && text_eq p.kind kind
    && text_eq p.status (codes "ready")
    && is_some p.storage_key

abbrev newer : PreviewRow → Option PreviewRow → Option PreviewRow
newer p none = some p
newer p (some q) = if ltb p.updated_at q.updated_at then some q else some p

-- ORDER BY updated_at DESC LIMIT 1; among equal times the database may choose, here the first.
unfoldable pub newest : (PreviewRow → Bool) → List PreviewRow → Option PreviewRow
newest test [] = none
newest test (p ∷ ps) = let rest = newest test ps in if test p then newer p rest else rest

-- getReadyFilePreview
unfoldable pub get_ready_file_preview : ℕ → Text → Database → Option PreviewRow
get_ready_file_preview file kind db = newest (ready_preview file kind) db.previews

-- The object that is sent, and its type.
pub record Source : Type 0 where
  pub key : Text
  pub mime : Text

abbrev pub octet_stream : Text
octet_stream = codes "application/octet-stream"

abbrev mime_or : Text → Option Text → Text
mime_or default none = default
mime_or default (some mime) = if is_empty mime then default else mime

-- The file's own object; a missing or empty type is application/octet-stream.
abbrev pub own_source : FileRow → Source
own_source rec = record { key = rec.storage_key; mime = mime_or octet_stream rec.mime }

abbrev trimmed_or : Text → Option Text → Text
trimmed_or default none = default
trimmed_or default (some mime) = if is_empty (trim_space mime) then default else mime

abbrev preview_source : Text → Text → Option Text → Result (Response Reply) Source
preview_source default key mime =
    if is_empty (trim_space key)
    then err (fail 404 "requested preview variant is not ready")
    else ok (record { key = key; mime = trimmed_or default mime })

abbrev keyed_source : Text → Option Text → Option Text → Result (Response Reply) Source
keyed_source default none mime = err (fail 404 "requested preview variant is not ready")
keyed_source default (some key) mime = preview_source default key mime

abbrev variant_source : FileRow → Option PreviewRow → Result (Response Reply) Source
variant_source rec none = err (fail 404 "requested preview variant is not ready")
variant_source rec (some p) = keyed_source (own_source rec).mime p.storage_key p.mime

-- The lookup of a generated variant; `fault` is a query that fails.
unfoldable pub load_variant : Bool → FileRow → Text → Database → Result (Response Reply) Source
load_variant fault rec variant db =
    if not (one_of variant ("thumbnail" ∷ "pdf" ∷ "metadata" ∷ []))
    then err (fail 400 "unsupported preview variant")
    else if fault
    then err (fail 500 "could not load preview variant")
    else variant_source rec (get_ready_file_preview rec.id variant db)

abbrev pub is_text_partial : Method → Bool
is_text_partial text_partial = true
is_text_partial _ = false

abbrev pub or_forbidden : Result String (Unit {0}) → Result (Response Reply) (Unit {0})
or_forbidden (ok u) = ok u
or_forbidden (err reason) = err (fail 403 reason)

-- The two queries of the gate that may fail.
pub record GateFaults : Type 0 where
  pub settings : Bool
  pub variant : Bool

-- What `if inline { … }` does: which object an inline preview is served from. `public` is `true` in
-- shares.go, `query` the parameter "variant".
unfoldable pub inline_source :
    GateFaults → Bool → Text → FileRow → Database → Result (Response Reply) Source
inline_source faults public query rec db =
    elim (get_preview_runtime_settings faults.settings db.settings) [
      | none ↦ err (fail 500 "could not load preview settings")
      | some cfg ↦
          let mode = detect_preview_mode rec in
          let variant = to_lower (trim_space query) in
          elim (preview_allowed_by_config cfg mode.category public) [
            | err reason ↦ err (fail 403 reason)
            | ok u ↦
                if is_empty variant
                  && is_text_partial mode.method
                  && is_risky_inline_preview_type rec
                then err (
                    fail 403
                      "inline preview is blocked for active content; use preview-content endpoint")
                else if is_empty variant && is_office mode.category
                then load_variant faults.variant rec (codes "pdf") db
                else if is_empty variant
                then ok (own_source rec)
                else load_variant faults.variant rec variant db
          ]
    ]

abbrev pub source_of :
    GateFaults → Bool → Bool → Text → FileRow → Database → Result (Response Reply) Source
source_of faults public true query rec db = inline_source faults public query rec db
source_of faults public false query rec db = ok (own_source rec)

-- The storage's three calls.
pub record SendFaults : Type 0 where
  pub stat : DiskFaults
  pub read : DiskFaults

abbrev pub delivery : Source → Bool → ℕ → Option Range → Bytes → Delivery
delivery source inline size range bytes = record {
  content_type = source.mime;
  inline = inline;
  sandbox = inline;
  size = size;
  range = range;
  bytes = bytes;
}

abbrev sized_or : Result StorageError ℕ → Action Reply ℕ
sized_or (ok size) = return size
sized_or (err e) = stop (fail 404 "file data not found")

abbrev opened_or : Result StorageError Bytes → Response Reply → Action Reply Bytes
opened_or (ok bytes) answer = return bytes
opened_or (err e) answer = stop answer

abbrev pub invalid_range : Response Reply
invalid_range = fail 416 "invalid range"

module _ (root : CleanPath) (faults : SendFaults) where
  abbrev send_range : Source → Bool → ℕ → Range → Handler Reply
  send_range source inline size r = do
    opened ← on_disk (get_range_stream root faults.read source.key (pos r.start) r.end)
    bytes ← opened_or opened invalid_range
    return (respond 206 (delivered (delivery source inline size (some r) bytes)))

  abbrev send_part : Source → Bool → ℕ → Option Range → Handler Reply
  send_part source inline size none = return (respond 416 (not_satisfiable size))
  send_part source inline size (some r) = send_range source inline size r

  abbrev send_whole : Source → Bool → ℕ → Handler Reply
  send_whole source inline size = do
    opened ← on_disk (get_stream root faults.read source.key)
    bytes ← opened_or opened (fail 500 "could not open file")
    return (respond 200 (delivered (delivery source inline size none bytes)))

  -- From the Stat to the end; `header` is the header Range.
  unfoldable pub send : Source → Bool → Text → Handler Reply
  send source inline header = do
    found ← on_disk (stat root faults.stat source.key)
    size ← sized_or found
    if is_empty (trim_space header)
        then send_whole source inline size
        else send_part source inline size (parse_single_range (trim_space header) size)

  -- streamOwnedFile: previewFile with `inline`, downloadFile without.
  unfoldable pub stream_owned_file :
      Bool → GateFaults → Bool → Option ℕ → Option ℕ → Text → Text → Handler Reply
  stream_owned_file load gate inline user file query header = do
    owner ← some_or user (fail 401 "authentication required")
    id ← some_or file (fail 400 "invalid file id")
    rec ← fetch_owned_file load owner id
    checked ← gets (λ w. source_of gate false inline query rec w.db)
    source ← lift checked
    send source inline header
