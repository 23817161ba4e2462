-- ===== src/Tests/FileRuns.antt =====
-- Keys of the storage at work.
use personal_space.Prelude.{true, [], ◌∷◌, codes}
use personal_space.Storage.Path.{CleanPath}

abbrev below : CleanPath
below = record { rooted = true; parts = codes "data" ∷ codes "tmp" ∷ codes "a.part" ∷ [] }
