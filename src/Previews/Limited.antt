-- ===== src/Previews/Limited.antt =====
-- The bounds on the previews of texts and tables of backend/internal/http/files.go.
use personal_space.Prelude.{
  ℕ, ◌+◌, ◌*◌, ◌^◌, ◌≤◌, ◌<◌, int64_limit, ◌≡◌, ◌⊎◌, Bool, true, false, ok, [], ltb, length, take,
}
use personal_space.Database.Rows.{FileRow}
use personal_space.Storage.Path.{CleanPath}
use personal_space.Storage.Files.{Bytes, Files, get_stream}
use personal_space.Server.World.{World}
use personal_space.Previews.Mode.{detect_preview_mode}
use personal_space.Previews.Csv.{detect_csv_delimiter}
use personal_space.Previews.Content.{
  TextContent, TableContent, ContentReply, ContentFaults, CsvReader, error, text_content,
  table_content, read_limited, read_rows, table_limit, preview_text_max_bytes, preview_csv_max_rows,
  panicked,
}

-- What is read under a limit below the greatest int64 is the beginning of the object, as much as the
-- limit lets, and it counts as cut exactly where there is more; under the greatest int64 it is nothing,
-- and does not count as cut.
abbrev pub IsRead : ℕ → Bytes → Bytes → Bool → Type 0
IsRead limit content shown cut =
    (limit + 1 < int64_limit) × (shown ≡ take limit content) × (cut ≡ ltb limit (length content))
    ⊎ (int64_limit ≤ limit + 1) × (shown ≡ []) × (cut ≡ false)

module _ (root : CleanPath) (csv : CsvReader) (faults : ContentFaults) (public : Bool)
    (rec : FileRow) (w : World) (content : Bytes)
    (stored : (get_stream root faults.opening rec.storage_key w.disk).0 ≡ ok content) where
  -- What a preview shows of an object: the bytes up to the limit of the settings, or the records in the
  -- bytes up to that limit or to two mebibytes, as many as the settings allow; and in both whether
  -- something was left out.
  abbrev pub Shows : ContentReply → Type 0
  Shows (error message) = Unit
  Shows (text_content t) =
      (t.file ≡ rec.id)
      × (t.limit ≡ preview_text_max_bytes faults.text_limit w.db.settings)
      × IsRead t.limit content t.content t.truncated
  Shows (table_content t) =
      (t.file ≡ rec.id)
      × (t.limit ≡ table_limit (preview_text_max_bytes faults.text_limit w.db.settings))
      × (t.max_rows ≡ preview_csv_max_rows faults.row_limit w.db.settings)
      × (24 * t.max_rows ≤ 2 ^ 48)
      × ((bytes : Bytes) × IsRead t.limit content bytes t.truncated_bytes
          × (t.rows ≡ take t.max_rows (csv t.delimiter bytes))
          × (t.truncated_rows ≡ ltb t.max_rows (length (csv t.delimiter bytes))))
  Shows panicked = 2 ^ 48 < 24 * preview_csv_max_rows faults.row_limit w.db.settings

  abbrev is_error : ContentReply → Bool
  is_error (error message) = true
  is_error _ = false

  abbrev limit : ℕ
  limit = preview_text_max_bytes faults.text_limit w.db.settings

  abbrev text : TextContent
  text = record {
    file = rec.id;
    category = (detect_preview_mode rec).category;
    content = (read_limited limit content).0;
    truncated = (read_limited limit content).1;
    limit = limit;
  }

  abbrev table : TableContent
  table =
      let bytes = (read_limited (table_limit limit) content).0 in
      let max = preview_csv_max_rows faults.row_limit w.db.settings in
      record {
        file = rec.id;
        delimiter = detect_csv_delimiter bytes;
        rows = (read_rows max (csv (detect_csv_delimiter bytes) bytes)).0;
        max_rows = max;
        limit = table_limit limit;
        truncated_bytes = (read_limited (table_limit limit) content).1;
        truncated_rows = (read_rows max (csv (detect_csv_delimiter bytes) bytes)).1;
      }

  abbrev max_rows : ℕ
  max_rows = preview_csv_max_rows faults.row_limit w.db.settings
