-- ===== src/Worker/Office.antt =====
-- generateOfficePDFPreview and loadOfficeTimeout of backend/internal/preview/runner.go.
use personal_space.Prelude.{
  ℕ, Bool, ◌&&◌, not, Text, codes, text_eq, ◌++◌, List, [], ◌∷◌, Option, none, some, Result, ok,
  err, ltb, ◌==◌, if◌then◌else◌, find, trim_space, to_lower, is_empty, ℤ, pos, negsuc, Exec, return,
  stop, stop_if, lift, gets, ◌>>=◌, ◌>>◌,
}
use personal_space.Database.Rows.{Json, SettingRow, FileRow}
use personal_space.Storage.Path.{CleanPath}
use personal_space.Settings.Table.{setting, decode_int64}
use personal_space.Server.World.{World}
use personal_space.Worker.Tools.{Tools, Entry, SofficeRun, RunnerFaults}
use personal_space.Worker.Publish.{Product, fetch_file_for_metadata, source_name, copy_source}

abbrev capped : ℤ → ℕ
capped (negsuc n) = 120
capped (pos n) = if n == 0 then 120 else if ltb 1800 n then 1800 else n

abbrev seconds_or : Option ℤ → ℕ
seconds_or none = 120
seconds_or (some n) = capped n

abbrev timeout_of : Option Json → ℕ
timeout_of none = 120
timeout_of (some raw) = seconds_or (decode_int64 raw)

-- loadOfficeTimeout, in seconds.
unfoldable pub load_office_timeout : Bool → List SettingRow → ℕ
load_office_timeout fault rows =
    timeout_of (setting fault "preview.office_conversion_timeout_seconds" rows)

-- filepath.Ext of a name without a slash: from its last dot.
unfoldable pub ext_of : Text → Text
ext_of [] = []
ext_of (c ∷ s) =
    let rest = ext_of s in if not (is_empty rest) then rest else if c == b'.' then c ∷ s else []

-- strings.TrimSuffix(name, filepath.Ext(name))
unfoldable pub stem_of : Text → Text
stem_of [] = []
stem_of (c ∷ s) = let rest = stem_of s in if is_empty (ext_of s) && c == b'.' then [] else c ∷ rest

abbrev named : Text → Entry → Bool
named name e = text_eq e.name name

abbrev is_pdf_file : Entry → Bool
is_pdf_file e = not e.is_dir && text_eq (to_lower (ext_of e.name)) (codes ".pdf")

abbrev not_found : Text
not_found = codes "converted PDF not found"

-- The PDF of the expected name, or else the first one of the directory.
unfoldable pub converted : Text → List Entry → Option Entry
converted expected entries = elim (find (named expected) entries) [
  | some e ↦ some e
  | none ↦ find is_pdf_file entries
]

abbrev pdf_or : Option Entry → Exec World Text Entry
pdf_or none = stop not_found
pdf_or (some e) = return e

abbrev listed : Result Text (List Entry) → Exec World Text (List Entry)
listed (ok entries) = return entries
listed (err e) = stop not_found

abbrev soffice_failed : SofficeRun → Text → Text
soffice_failed run e =
    codes "soffice conversion failed: " ++ e ++ codes " (" ++ trim_space run.printed ++ codes ")"

abbrev converted_without : SofficeRun → Option Text → Exec World Text (Unit {0})
converted_without run none = return tt
converted_without run (some e) = stop (soffice_failed run e)

module _ (root : CleanPath) (tools : Tools) (faults : RunnerFaults) where
  -- generateOfficePDFPreview, up to the end that it shares with the other generators.
  unfoldable pub office_pdf_of : ℕ → Exec World Text (FileRow × Product)
  office_pdf_of id = do
    file ← fetch_file_for_metadata faults id
    content ← copy_source root tools faults.temp file
    timeout ← gets (λ w. load_office_timeout faults.timeout w.db.settings)
    let run = tools.soffice (source_name file) content timeout
    stop_if run.timed_out (codes "office conversion timed out after " ++ tools.duration timeout)
    converted_without run run.error
    entries ← listed run.directory
    pdf ← pdf_or (converted (stem_of (source_name file) ++ codes ".pdf") entries)
    bytes ← lift pdf.content
    stop_if (is_empty bytes) (codes "converted PDF is empty")
    return (
      file,
      record {
        kind = codes "pdf";
        key = codes "previews/pdf/" ++ tools.spell file.id ++ codes ".pdf";
        mime = codes "application/pdf";
        bytes = bytes;
      },
    )
