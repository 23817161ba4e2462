-- ===== src/Settings.antt =====
-- The administrator's settings: backend/internal/settings and the runtime settings of
-- backend/internal/http.
pub mod Table
pub mod Upload
pub mod UploadRoundtrip
