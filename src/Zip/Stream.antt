-- ===== src/Zip/Stream.antt =====
-- streamFolderZip of backend/internal/http/zip.go.
use personal_space.Prelude.{
  Bool, true, false, ◌||◌, Text, codes, text_eq, has_prefix, List, [], ◌∷◌, ◌++◌, Result, ok, err,
  if◌then◌else◌, trim_space, is_empty,
}
use personal_space.Storage.Path.{CleanPath, StorageError, clean, render}
use personal_space.Storage.Files.{Bytes, Files, DiskFaults, get_stream}
use personal_space.Zip.Entries.{ZipFileEntry}

-- A member of the archive.
pub record Member : Type 0 where
  pub name : Text
  pub content : Bytes

-- What reaches the client: the members that were written, and whether the archive was closed. A
-- connection that is cut within a member counts it as not written.
pub record Archive : Type 0 where
  pub file_name : Text
  pub members : List Member
  pub complete : Bool

-- path.Join(dir, name): empty elements are left out.
abbrev pub joined : Text → Text → Text
joined dir name = if is_empty dir then name else if is_empty name then dir else dir ++ (b'/' ∷ name)

-- path.Clean(path.Join(entry.RelativeDir, entry.FileName))
unfoldable pub member_name : ZipFileEntry → Text
member_name e = render (clean (joined e.relative_dir e.file_name))

unfoldable pub is_outside : Text → Bool
is_outside name = has_prefix name (codes "../") || text_eq name (codes "..")

abbrev pub member : Text → Bytes → Member
member name content = record { name = name; content = content }

module _ (root : CleanPath) (faults : DiskFaults) (broken : Text → Bool) where
  abbrev read_entry : ZipFileEntry → Files → Result StorageError Bytes
  read_entry e files = (get_stream root faults e.storage_key files).0

  -- The loop over the entries: it ends at the first object that is missing, name that leads out, or
  -- write that fails.
  unfoldable pub write_members : List ZipFileEntry → Files → List Member × Bool
  write_members [] files = ([], true)
  write_members (e ∷ es) files =
      let rest = write_members es files in
      elim (read_entry e files) [
        | err error ↦ ([], false)
        | ok content ↦
            if is_outside (member_name e) || broken (member_name e)
            then ([], false)
            else (member (member_name e) content ∷ rest.0, rest.1)
      ]

  abbrev archive_name : Text → Text
  archive_name name = if is_empty (trim_space name) then codes "folder.zip" else name

  -- From the headers to the end of the copy.
  unfoldable pub stream_folder_zip : Text → List ZipFileEntry → Files → Archive
  stream_folder_zip name entries files =
      let (members, complete) = write_members entries files in
      record { file_name = archive_name name; members = members; complete = complete }
