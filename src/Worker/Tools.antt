-- ===== src/Worker/Tools.antt =====
-- What the worker of backend/internal/preview/runner.go calls outside of the repository, as
-- arguments: the programs that it starts, the codecs of images and JSON, and the texts of errors.
use personal_space.Prelude.{ℕ, Bool, Text, List, Option, none, some, Result, Exec, return, stop}
use personal_space.Database.Rows.{FileRow}
use personal_space.Storage.Path.{StorageError}
use personal_space.Storage.Files.{Bytes, DiskFaults}
use personal_space.Worker.Image.{Image}

-- A run of ffmpeg: what it printed, its error, and the picture that it wrote.
pub record FfmpegRun : Type 0 where
  pub printed : Text
  pub error : Option Text
  pub frame : Option Bytes

-- A name in the directory of a conversion, in the order of os.ReadDir; `content` is `none` where the
-- file cannot be read.
pub record Entry : Type 0 where
  pub name : Text
  pub is_dir : Bool
  pub content : Result Text Bytes

pub record SofficeRun : Type 0 where
  pub printed : Text
  pub timed_out : Bool
  pub error : Option Text
  pub directory : Result Text (List Entry)

pub record Tools : Type 0 where
  -- json.Marshal of the payload: the time, the row, and the metadata of the media.
  pub marshal : ℕ → FileRow → Option Bytes → Result Text Bytes
  -- ffprobe on a file of this name, with the decoding of what it printed
  pub ffprobe : Text → Bytes → Result Text Bytes
  -- ffmpeg, with a seek to the first second or without
  pub ffmpeg : Bool → Text → Bytes → FfmpegRun
  -- the error of reading a picture that ffmpeg has not written
  pub no_frame : Text
  -- soffice, within a time in seconds
  pub soffice : Text → Bytes → ℕ → SofficeRun
  pub decode_image : Bytes → Result Text Image
  pub rgba : ℕ → ℕ
  pub encode_jpeg : Image → Result Text Bytes
  -- err.Error() of the storage's errors, and the spelling of ids and durations
  pub storage_text : StorageError → Text
  pub spell : ℕ → Text
  pub duration : ℕ → Text

-- The calls on the directory of a conversion: MkdirTemp, Create, Copy and Close. An error is its text.
pub record TempFaults : Type 0 where
  pub make : Option Text
  pub create : Option Text
  pub read : DiskFaults
  pub copy : Option Text
  pub close : Option Text

pub record RunnerFaults : Type 0 where
  pub begin : Option Text
  pub claim : Option Text
  pub commit : Option Text
  pub fetch : Option Text
  pub probe : TempFaults
  pub temp : TempFaults
  pub read : DiskFaults
  pub timeout : Bool
  pub put : DiskFaults
  pub upsert : Option Text
  pub complete : Option Text
  pub settle : Option Text

-- `if err := call(); err != nil { return err }`
abbrev pub try : {S : Type 0} → Option Text → Exec S Text (Unit {0})
try none = return tt
try (some e) = stop e
