-- ===== src/Worker/Generate.antt =====
-- generateMetadataPreview, generateThumbnailPreview and generateVideoThumbnailPreview of
-- backend/internal/preview/runner.go, up to their common end.
use personal_space.Prelude.{
  ℕ, Bool, true, false, ◌||◌, not, Text, codes, one_of, has_prefix, ◌++◌, [], ◌∷◌, Option, none,
  some, Result, ok, err, if◌then◌else◌, trim_space, to_lower, is_empty, Exec, return, stop, stop_if,
  lift, ◌>>=◌, ◌>>◌,
}
use personal_space.Database.Rows.{FileRow}
use personal_space.Storage.Path.{CleanPath}
use personal_space.Storage.Files.{Bytes, get_stream}
use personal_space.Server.World.{World, on_disk}
use personal_space.Worker.Image.{resize_image_contain}
use personal_space.Worker.Tools.{Tools, FfmpegRun, RunnerFaults}
use personal_space.Worker.Publish.{
  Product, fetch_file_for_metadata, stored_or, source_name, copy_source,
}

abbrev mime_of : Option Text → Text
mime_of none = []
mime_of (some mime) = to_lower (trim_space mime)

abbrev has_video_extension : Option Text → Bool
has_video_extension none = false
has_video_extension (some e) =
    one_of (to_lower (trim_space e)) ("mp4" ∷ "webm" ∷ "mov" ∷ "mkv" ∷ "m4v" ∷ "avi" ∷ "ogv" ∷ [])

-- isVideoFile
unfoldable pub is_video_file : FileRow → Bool
is_video_file f = has_prefix (mime_of f.mime) (codes "video/") || has_video_extension f.extension

abbrev is_media_mime : Text → Bool
is_media_mime mime = has_prefix mime (codes "video/") || has_prefix mime (codes "audio/")

-- `metaErr == nil && mediaMeta != nil`
abbrev media_or_none : Exec World Text (Option Bytes) → Exec World Text (Option Bytes)
media_or_none m w =
    let (r, after) = m w in elim r [ ok media ↦ (ok media, after) | err e ↦ (ok none, after) ]

-- A picture that ffmpeg has left: the second run writes over the first one's.
abbrev frame_or : Option Bytes → Option Bytes → Option Bytes
frame_or none before = before
frame_or (some frame) before = some frame

abbrev ffmpeg_failed : FfmpegRun → FfmpegRun → Text → Text
ffmpeg_failed first second e =
    codes "ffmpeg thumbnail failed: "
    ++ e
    ++ codes " ("
    ++ trim_space first.printed
    ++ codes " / "
    ++ trim_space second.printed
    ++ codes ")"

-- The two runs: with a seek, and without where the first one failed.
unfoldable pub run_ffmpeg : Tools → Text → Bytes → Result Text (Option Bytes)
run_ffmpeg tools name content =
    let first = tools.ffmpeg true name content in
    let second = tools.ffmpeg false name content in
    elim first.error [
      | none ↦ ok first.frame
      | some e ↦ elim second.error [
        | none ↦ ok (frame_or second.frame first.frame)
        | some e2 ↦ err (ffmpeg_failed first second e2)
      ]
    ]

abbrev frame_bytes : Text → Option Bytes → Exec World Text Bytes
frame_bytes missing none = stop missing
frame_bytes missing (some frame) =
    stop_if (is_empty frame) (codes "video thumbnail is empty") >> return frame

module _ (root : CleanPath) (tools : Tools) (faults : RunnerFaults) where
  -- extractMediaMetadata
  unfoldable pub extract_media_metadata : FileRow → Exec World Text (Option Bytes)
  extract_media_metadata file = if not (is_media_mime (mime_of file.mime)) then return none else do
    content ← copy_source root tools faults.probe file
    media ← lift (tools.ffprobe (source_name file) content)
    return (some media)

  -- generateMetadataPreview
  unfoldable pub metadata_of : ℕ → ℕ → Exec World Text (FileRow × Product)
  metadata_of now id = do
    file ← fetch_file_for_metadata faults id
    media ← media_or_none (extract_media_metadata file)
    body ← lift (tools.marshal now file media)
    return (
      file,
      record {
        kind = codes "metadata";
        key = codes "previews/metadata/" ++ tools.spell file.id ++ codes ".json";
        mime = codes "application/json";
        bytes = body;
      },
    )

  abbrev thumbnail : FileRow → Bytes → Product
  thumbnail file bytes = record {
    kind = codes "thumbnail";
    key = codes "previews/thumbnails/" ++ tools.spell file.id ++ codes ".jpg";
    mime = codes "image/jpeg";
    bytes = bytes;
  }

  -- generateVideoThumbnailPreview
  unfoldable pub video_thumbnail_of : FileRow → Exec World Text (FileRow × Product)
  video_thumbnail_of file = do
    content ← copy_source root tools faults.temp file
    frame ← lift (run_ffmpeg tools (source_name file) content)
    bytes ← frame_bytes tools.no_frame frame
    return (file, thumbnail file bytes)

  abbrev decoded : {A : Type 0} → Result Text A → Result Text A
  decoded (ok a) = ok a
  decoded (err e) = err (codes "decode image: " ++ e)

  abbrev image_thumbnail_of : FileRow → Exec World Text (FileRow × Product)
  image_thumbnail_of file = do
    opened ← on_disk (get_stream root faults.read file.storage_key)
    content ← stored_or tools opened
    src ← lift (decoded (tools.decode_image content))
    bytes ← lift (tools.encode_jpeg (resize_image_contain tools.rgba src 320 320))
    return (file, thumbnail file bytes)

  -- generateThumbnailPreview
  unfoldable pub thumbnail_of : ℕ → Exec World Text (FileRow × Product)
  thumbnail_of id = do
    file ← fetch_file_for_metadata faults id
    if is_video_file file then video_thumbnail_of file else image_thumbnail_of file
