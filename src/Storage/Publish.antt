-- ===== src/Storage/Publish.antt =====
-- PutStream of local.go replaces an object whole or not at all.
use personal_space.Prelude.{
  ◌≡◌, ap, inl, inr, Bool-cases, false, ◌++◌, none, some, Text, codes, text_eq, text_eq_iff,
  text_eq_refl, ok, err, arith, length, length-append,
}
use personal_space.Storage.Path.{CleanPath, StorageError}
use personal_space.Storage.Files.{Files, Stream, DiskFaults, path_of, put_stream}

abbrev pub tmp_of : Text → Text
tmp_of path = path ++ codes ".tmp"

tmp_apart : (path : Text) → text_eq (tmp_of path) path ≡ false
tmp_apart path = elim (Bool-cases (text_eq (tmp_of path) path)) [
  | inr e ↦ e
  | inl e ↦
      let same : length (path ++ codes ".tmp") ≡ length path =
        ap length ((text_eq_iff (tmp_of path) path).0 e) in
      absurd (omega (arith, same, length-append path (codes ".tmp")))
]

module _ (root : CleanPath) (faults : DiskFaults) (key path : Text) (reader : Stream)
    (files : Files) (named : path_of root key ≡ ok path) where
  -- A PutStream that succeeds leaves exactly what the reader delivered at the key's path, no
  -- temporary file, and every other path as it was.
  pub put_stream_ok :
      (put_stream root faults key reader files).0 ≡ ok tt
      → ((put_stream root faults key reader files).1 path ≡ some reader.bytes)
        × ((put_stream root faults key reader files).1 (tmp_of path) ≡ none)
        × ((q : Text)
            → text_eq q path ≡ false
            → text_eq q (tmp_of path) ≡ false
            → (put_stream root faults key reader files).1 q ≡ files q)
  unfolding put_stream
  put_stream_ok h = (
    ground (arith, named, text_eq_refl path),
    ground (arith, named, text_eq_refl (tmp_of path), tmp_apart path),
    λ q a b. ground (arith, named),
  )

  -- A PutStream that fails, at any of its calls, leaves the object at the key's path, and every
  -- other path but the temporary one, as it was.
  pub put_stream_err :
      (e : StorageError)
      → (put_stream root faults key reader files).0 ≡ err e
      → (q : Text) → text_eq q (tmp_of path) ≡ false
      → (put_stream root faults key reader files).1 q ≡ files q
  unfolding put_stream
  put_stream_err e h q other = ground (arith, named)
