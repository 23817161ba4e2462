-- ===== src/Storage/Files.antt =====
-- The operations of LocalStorage in backend/internal/storage/local.go, on the files below its root.
-- Directories are not modelled: MkdirAll is one of the calls that a fault flag stands for.
use personal_space.Prelude.{
  ℕ, ◌+◌, ◌-◌, Bool, true, false, ◌||◌, not, List, [], ◌++◌, Option, none, some, ltb, leb, ◌==◌,
  if◌then◌else◌, min, length, take, drop, Text, codes, text_eq, Result, ok, err, Exec, return, stop,
  lift, some_or, stop_if, modify, gets, ◌>>=◌, ◌>>◌, ℤ, pos, negsuc, is_some,
}
use personal_space.Storage.Path.{
  CleanPath, StorageError, canceled, io_failed, not_exist, offset_mismatch, copy_failed,
  invalid_range, render, resolve,
}

abbrev pub Bytes : Type 0
Bytes = List ℕ

-- What stands at each path.
abbrev pub Files : Type 0
Files = Text → Option Bytes

-- An io.Reader: it delivers `bytes`, and then ends, or fails.
pub record Stream : Type 0 where
  pub bytes : Bytes
  pub fails : Bool

-- os.Rename's target, a created file: the path now holds `data`.
abbrev pub put : Text → Bytes → Files → Files
put path content files p = if text_eq p path then some content else files p

-- os.Remove
abbrev pub remove : Text → Files → Files
remove path files p = if text_eq p path then none else files p

abbrev pub content_of : Option Bytes → Bytes
content_of none = []
content_of (some content) = content

-- The calls of the operating system that may fail, `true` for a failure: those before the copy
-- (MkdirAll, Create, OpenFile, Seek, Open, Stat), Close, and Rename or Remove. `canceled` is ctx.Err().
pub record DiskFaults : Type 0 where
  pub setup : Bool
  pub close : Bool
  pub commit : Bool
  pub canceled : Bool

abbrev pub no_faults : DiskFaults
no_faults = record { setup = false; close = false; commit = false; canceled = false }

abbrev pub Disk : Type 0 → Type 0
Disk A = Exec Files StorageError A

-- The path of a key.
abbrev pub path_of : CleanPath → Text → Result StorageError Text
path_of root key = elim (resolve root key) [ ok p ↦ ok (render p) | err e ↦ err e ]

-- `!(start < 0 || end < start || start >= size)`
abbrev pub range_ok : ℤ → ℤ → ℕ → Bool
range_ok (pos start) (pos end) size = not (ltb end start || leb size start)
range_ok (pos start) (negsuc end) size = false
range_ok (negsuc start) end size = false

abbrev pub slice : ℤ → ℤ → Bytes → Bytes
slice (pos start) (pos end) content =
    take (min end (length content - 1) - start + 1) (drop start content)
slice _ _ content = []

module _ (root : CleanPath) (faults : DiskFaults) where
  abbrev abandon : Text → StorageError → Disk (Unit {0})
  abandon tmp e = modify (remove tmp) >> stop e

  abbrev abandon_if : Bool → Text → StorageError → Disk (Unit {0})
  abandon_if true tmp e = abandon tmp e
  abandon_if false tmp e = return tt

  -- PutStream: write to `path + ".tmp"`, then rename.
  unfoldable pub put_stream : Text → Stream → Disk (Unit {0})
  put_stream key reader = do
    path ← lift (path_of root key)
    let tmp = path ++ codes ".tmp"
    stop_if faults.setup io_failed
    modify (put tmp reader.bytes)
    abandon_if reader.fails tmp copy_failed
    abandon_if faults.close tmp io_failed
    abandon_if faults.commit tmp io_failed
    modify (λ files. put path reader.bytes (remove tmp files))

  -- AppendAt: O_CREATE makes the file before its length is compared with the offset, and what was
  -- copied before a failure stays written.
  unfoldable pub append_at : Text → ℕ → Stream → Disk ℕ
  append_at key offset reader = do
    path ← lift (path_of root key)
    stop_if faults.setup io_failed
    current ← gets (λ files. content_of (files path))
    modify (put path current)
    stop_if (not (length current == offset)) offset_mismatch
    modify (put path (current ++ reader.bytes))
    stop_if reader.fails copy_failed
    return (length reader.bytes)

  -- GetStream
  unfoldable pub get_stream : Text → Disk Bytes
  get_stream key = do
    path ← lift (path_of root key)
    stop_if faults.setup io_failed
    found ← gets (λ files. files path)
    some_or found not_exist

  -- GetRangeStream
  unfoldable pub get_range_stream : Text → ℤ → ℤ → Disk Bytes
  get_range_stream key start end = do
    path ← lift (path_of root key)
    stop_if faults.setup io_failed
    found ← gets (λ files. files path)
    content ← some_or found not_exist
    stop_if (not (range_ok start end (length content))) invalid_range
    return (slice start end content)

  -- Delete: a missing file is no error.
  unfoldable pub delete : Text → Disk (Unit {0})
  delete key = do
    path ← lift (path_of root key)
    stop_if faults.canceled canceled
    stop_if faults.commit io_failed
    modify (remove path)

  -- Exists
  unfoldable pub exists : Text → Disk Bool
  exists key = do
    path ← lift (path_of root key)
    stop_if faults.canceled canceled
    stop_if faults.setup io_failed
    found ← gets (λ files. files path)
    return (is_some found)

  -- Stat: the size in its ObjectInfo.
  unfoldable pub stat : Text → Disk ℕ
  stat key = do
    path ← lift (path_of root key)
    stop_if faults.canceled canceled
    stop_if faults.setup io_failed
    found ← gets (λ files. files path)
    content ← some_or found not_exist
    return (length content)

  -- Move
  unfoldable pub move : Text → Text → Disk (Unit {0})
  move source target = do
    from_path ← lift (path_of root source)
    to_path ← lift (path_of root target)
    stop_if faults.canceled canceled
    stop_if (faults.setup || faults.commit) io_failed
    found ← gets (λ files. files from_path)
    content ← some_or found not_exist
    modify (λ files. put to_path content (remove from_path files))
