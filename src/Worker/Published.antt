-- ===== src/Worker/Published.antt =====
-- What a generator of backend/internal/preview/runner.go leaves behind where it succeeds.
use personal_space.Prelude.{ℕ, ◌≡◌, codes, List, some, find}
use personal_space.Database.Rows.{PreviewRow}
use personal_space.Server.World.{World}
use personal_space.Worker.Tools.{Tools}
use personal_space.Worker.Publish.{Product, same_preview}

-- A ready row for the product of a file.
abbrev pub IsReady : ℕ → Product → List PreviewRow → Type 0
IsReady file p rows =
    (row : PreviewRow) × (find (same_preview file p.kind) rows ≡ some row)
    × (row.storage_key ≡ some p.key)
    × (row.mime ≡ some p.mime)
    × (row.status ≡ codes "ready")
