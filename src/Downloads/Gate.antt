-- ===== src/Downloads/Gate.antt =====
-- Active content at the gate of inline previews in backend/internal/http/files.go and shares.go.
use personal_space.Prelude.{
  ◌≡◌, ◌≢◌, refl, Bool, true, false, Text, codes, [], ◌∷◌, none, some, ok, one_of, text_eq,
  has_prefix, trim_space, to_lower, is_empty, arith,
}
use personal_space.Database.Rows.{Database, FileRow}
use personal_space.Previews.Runtime.{PreviewRuntimeSettings, get_preview_runtime_settings}
use personal_space.Previews.Mode.{
  text_partial, unsupported, binary, folded, mode_of, detect_preview_mode,
  is_risky_inline_preview_type, is_svg_mime_or_ext, is_office_like_mime, is_office_like_ext,
  is_text_like_mime, is_text_like_ext, preview_allowed_by_config,
}
use personal_space.Downloads.Stream.{GateFaults, Source, own_source, inline_source}

-- The types that browsers run, less application/xhtml+xml.
pub data Active : Text → Type 0 where
  html : Active (codes "text/html")
  svg : Active (codes "image/svg+xml")
  xml : Active (codes "application/xml")
  text_xml : Active (codes "text/xml")

Active-is_text :
    (mime ext : Text)
    → Active mime
    → is_office_like_ext ext ≡ false
    → (mode_of mime ext).method ≡ text_partial
unfolding mode_of is_svg_mime_or_ext is_office_like_mime is_text_like_mime one_of text_eq has_prefix
Active-is_text _ ext html h = ground arith
Active-is_text _ ext svg h = ground arith
Active-is_text _ ext xml h = ground arith
Active-is_text _ ext text_xml h = ground arith

Active-is_listed :
    (mime : Text)
    → Active mime
    → one_of mime (
        "text/html" ∷ "application/xhtml+xml" ∷ "image/svg+xml" ∷ "application/xml" ∷ "text/xml"
        ∷ [])
      ≡ true
unfolding one_of text_eq
Active-is_listed _ html = refl
Active-is_listed _ svg = refl
Active-is_listed _ xml = refl
Active-is_listed _ text_xml = refl

Active-is_risky :
    (rec : FileRow) → Active (folded rec.mime) → is_risky_inline_preview_type rec ≡ true
unfolding is_risky_inline_preview_type
Active-is_risky rec a = ground (arith, Active-is_listed (folded rec.mime) a)

-- The gate never lets a file through under its own type when that type is text/html, image/svg+xml,
-- application/xml or text/xml, its extension no office one, and no variant is asked for.
pub inline_source-Active :
    (faults : GateFaults) (public : Bool) (query : Text) (rec : FileRow) (db : Database)
    (source : Source)
    → Active (folded rec.mime)
    → is_office_like_ext (folded rec.extension) ≡ false
    → is_empty (to_lower (trim_space query)) ≡ true
    → inline_source faults public query rec db ≢ ok source
unfolding inline_source detect_preview_mode
inline_source-Active faults public query rec db source active office blank = ground (
  arith,
  Active-is_text (folded rec.mime) (folded rec.extension) active office,
  Active-is_risky rec active,
)

xhtml_is_binary :
    mode_of (codes "application/xhtml+xml") (folded none)
    ≡ record { category = binary; method = unsupported; supported = false }
unfolding mode_of is_svg_mime_or_ext is_office_like_mime is_office_like_ext is_text_like_mime
    is_text_like_ext one_of text_eq has_prefix folded
xhtml_is_binary = refl

xhtml_is_listed :
    one_of (codes "application/xhtml+xml") (
      "text/html" ∷ "application/xhtml+xml" ∷ "image/svg+xml" ∷ "application/xml" ∷ "text/xml" ∷ [])
    ≡ true
unfolding one_of text_eq
xhtml_is_listed = refl

xhtml_is_risky :
    (rec : FileRow)
    → folded rec.mime ≡ codes "application/xhtml+xml"
    → is_risky_inline_preview_type rec ≡ true
unfolding is_risky_inline_preview_type
xhtml_is_risky rec mime = rw (mime, xhtml_is_listed) refl

-- A file of the type application/xhtml+xml without an extension is let through under its own type,
-- wherever previews are allowed.
pub inline_source-xhtml :
    (faults : GateFaults) (public : Bool) (query : Text) (rec : FileRow) (db : Database)
    (cfg : PreviewRuntimeSettings)
    → folded rec.mime ≡ codes "application/xhtml+xml"
    → rec.extension ≡ none
    → is_empty (to_lower (trim_space query)) ≡ true
    → get_preview_runtime_settings faults.settings db.settings ≡ some cfg
    → preview_allowed_by_config cfg binary public ≡ ok tt
    → (is_risky_inline_preview_type rec ≡ true)
      × (inline_source faults public query rec db ≡ ok (own_source rec))
unfolding inline_source detect_preview_mode folded
inline_source-xhtml faults public query rec db cfg mime ext blank settings allowed =
    let mode : detect_preview_mode rec
        ≡ record { category = binary; method = unsupported; supported = false } =
      rw (mime, ext) xhtml_is_binary in
    (xhtml_is_risky rec mime, ground (arith, mode, blank, settings, allowed))
