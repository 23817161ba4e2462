-- ===== src/Zip/Confined.antt =====
-- What streamFolderZip of backend/internal/http/zip.go writes.
use mathlib.Core.List.{reverse}
use personal_space.Prelude.{
  ◌≡◌, refl, inl, inr, Bool, true, false, ◌||◌, Text, codes, text_eq, has_prefix, List, [], ◌∷◌, ok,
  err, Bool-cases, Result-cases, arith,
}
use personal_space.Storage.Path.{
  CleanPath, StorageError, dotdot, clean, clean_from, render, split_on,
}
use personal_space.Storage.Files.{Bytes, Files, DiskFaults, get_stream}
use personal_space.Storage.Traversal.{
  AllNames, split_on-NoSlashes, Stacked, clean_from-Stacked, AllNames-reverse_aux, IsUp-reverse_aux,
}
use personal_space.Zip.Entries.{ZipFileEntry}
use personal_space.Zip.Stream.{Member, member, joined, member_name, is_outside, write_members}

outside_up :
    (rest : List Text)
    → is_outside (render (record { rooted = false; parts = dotdot ∷ rest })) ≡ true
unfolding is_outside render has_prefix text_eq
outside_up [] = refl
outside_up (p ∷ rest) = refl

-- A cleaned path that does not lead out has no "..".
clean-inside : (s : Text) → is_outside (render (clean s)) ≡ false → AllNames (clean s).parts
unfolding clean
clean-inside s h =
    stacked (clean_from (has_prefix s (codes "/")) [] (split_on b'/' s)) (has_prefix s (codes "/"))
      h
      (clean_from-Stacked (has_prefix s (codes "/")) [] (split_on b'/' s) (split_on-NoSlashes s)
        (inl tt))
  where
    stacked :
        (stack : List Text) (rooted : Bool)
        → is_outside (render (record { rooted = rooted; parts = reverse stack })) ≡ false
        → Stacked rooted stack
        → AllNames (reverse stack)
    stacked stack rooted k (inl names) = AllNames-reverse_aux stack [] names tt
    stacked stack rooted k (inr (e, up)) =
        let (rest, q) = IsUp-reverse_aux stack [] up in cc (k, e, q, outside_up rest)

clean-rooted : (s : Text) → (clean s).rooted ≡ has_prefix s (codes "/")
unfolding clean
clean-rooted s = refl

-- A name of the archive: components that are neither empty nor "." or ".." and hold no "/", and the
-- name begins with "/" only where the path of the entry does.
abbrev pub IsInside : ZipFileEntry → Text → Type 0
IsInside e name =
    (c : CleanPath) × (name ≡ render c)
    × AllNames c.parts
    × (c.rooted ≡ has_prefix (joined e.relative_dir e.file_name) (codes "/"))

module _ (root : CleanPath) (faults : DiskFaults) (broken : Text → Bool) (files : Files) where
  -- The members are the first entries, each under its name with its object; all of them where the
  -- archive is complete.
  abbrev pub Holds : List ZipFileEntry → List Member → Bool → Type 0
  Holds [] [] complete = complete ≡ true
  Holds [] (m ∷ ms) complete = ⊥
  Holds (e ∷ es) [] complete = complete ≡ false
  Holds (e ∷ es) (m ∷ ms) complete =
      (m.name ≡ member_name e)
      × IsInside e m.name
      × ((get_stream root faults e.storage_key files).0 ≡ ok m.content)
      × Holds es ms complete

  write_stopped :
      (e : ZipFileEntry) (es : List ZipFileEntry) (error : StorageError)
      → (get_stream root faults e.storage_key files).0 ≡ err error
      → write_members root faults broken (e ∷ es) files ≡ ([], false)
  unfolding write_members
  write_stopped e es error h = ground (arith, h)

  write_refused :
      (e : ZipFileEntry) (es : List ZipFileEntry) (content : Bytes)
      → (get_stream root faults e.storage_key files).0 ≡ ok content
      → (is_outside (member_name e) || broken (member_name e)) ≡ true
      → write_members root faults broken (e ∷ es) files ≡ ([], false)
  unfolding write_members
  write_refused e es content h k = ground (arith, h, k)

  write_next :
      (e : ZipFileEntry) (es : List ZipFileEntry) (content : Bytes)
      → (get_stream root faults e.storage_key files).0 ≡ ok content
      → (is_outside (member_name e) || broken (member_name e)) ≡ false
      → write_members root faults broken (e ∷ es) files ≡ (
        member (member_name e) content ∷ (write_members root faults broken es files).0,
        (write_members root faults broken es files).1,
      )
  unfolding write_members
  write_next e es content h k = ground (arith, h, k)

  -- The archive holds the entries in their order, each with the bytes of its object, up to the first
  -- one that cannot be written, and is closed only where all of them are in it. Every name in it is
  -- made of components that are neither empty nor "." or ".." and hold no "/", and is relative unless
  -- the path of its entry begins with "/".
  pub write_members-Holds :
      (entries : List ZipFileEntry)
      → let (members, complete) = write_members root faults broken entries files in
        Holds entries members complete
  unfolding write_members member_name
  write_members-Holds [] = refl
  write_members-Holds (e ∷ es) =
      elim (Result-cases (get_stream root faults e.storage_key files).0) [
        | inr (error, bad) ↦ rw (write_stopped e es error bad) refl
        | inl (content, read) ↦
            elim (Bool-cases (is_outside (member_name e) || broken (member_name e))) [
              | inl stopped ↦ rw (write_refused e es content read stopped) refl
              | inr written ↦ rw (write_next e es content read written) (
                refl,
                (clean _, refl, clean-inside _ (ground (arith, written)), clean-rooted _),
                read,
                write_members-Holds es,
              )
            ]
      ]
