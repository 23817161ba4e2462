-- ===== src/Lib.antt =====
-- PersonalSpace, a self-hosted file store: the Go backend below backend/internal.
--
-- The parts and their files. The handlers of backend/internal/http work on one PostgreSQL database
-- (the tables of backend/migrations), on the object storage of backend/internal/storage, and on an
-- audit log. Server/World.antt has that state and the handlers' shape: an action on the state that may
-- end early with an answer, as `writeJSON(...); return` does, and keeps what it has written; a
-- transaction, which is rolled back where its block ends before its Commit, while the storage and the
-- audit log are not; `serve`, the answer of a handler and the state it leaves. Database/Rows.antt has
-- the rows and the unique indexes.
--   Storage: Path (filepath.Clean and Join, LocalStorage.resolve), Files (LocalStorage's operations
--     on what stands at each path), Traversal and Publish (theorems).
--   Settings: Table (system_settings), Upload (settings/upload.go), UploadRoundtrip.
--   Server: World, Names (normalizeNodeName, filepath.Base), Numbers (strconv.ParseInt).
--   Uploads: Session, Init, Chunk, Complete, Cancel are http/uploads.go, handler by handler, and the
--     expiry of maintenance/cleanup.go; Direct is uploadFiles of http/files.go; Progress, Resume,
--     Interrupted, Completion, Admission, Expiry, DirectEffect and DirectHang have the theorems.
--   Tus: Reply, Create, Patch are http/tus.go over the same sessions; Finalize, Progress, Lost and
--     Admission have the theorems.
--   Nodes: Handlers (renameFile, moveFile, deleteFile of http/files.go), Deletion.
--   Previews: Runtime (http/runtime_settings.go), Mode, Csv, Jobs and Content (http/files.go), Queue and
--     Limited.
--   Downloads: Range and Stream (parseSingleRange, streamOwnedFile of http/files.go), Bounds, Inline
--     and Gate.
--   Folders: Handlers, Delete, Sort and Listing are http/folders.go; Acyclic, Requests, Deletion,
--     Stable and Sorted have the theorems. Database/Tree.antt is the recursive query over the
--     folders that they share with the shares and the archives.
--   Shares: Access, Create, Public, Manage, Browse and Preview are http/shares.go; Guarded, Limit,
--     Roundtrip, Managed and Browsed have the theorems.
--   Zip: Entries, Stream and Handlers are http/zip.go and publicShareFolderZip of http/shares.go;
--     Levels, Ends, Collected, Confined and Public have the theorems.
--   Worker: preview/runner.go. Double (the arithmetic of float64) and Image (resizeImageContain), Tools
--     (the external programs, codecs and temporary directories, as parameters), Claim, Publish,
--     Generate, Office and Process; Moves, Rows, Attempts, Drain, Published and Resize have the
--     theorems. The jobs are those that Previews/Jobs.antt queues, the products those that
--     Downloads/Stream.antt delivers.
--   Accounts: Sessions (login, logout and me of http/router.go, middleware/auth.go, http/auth_password.go),
--     Admin (http/admin_users.go), Usage (adminStorageRecalculate of http/admin.go), Csrf
--     (middleware/csrf.go) and the whole round of maintenance/cleanup.go in Cleanup; Closed, Login,
--     Deactivated and Origins have the theorems. The other handlers take the user that RequireAuth has
--     put into the context as an argument.
--   RateLimit: Redis (the commands, with their laws, as an interface), Enforce (security/ratelimiter.go,
--     http/rate_limit.go), Window. The handlers are modelled behind their limits.
--   Prelude: Boolean tests, lists and integers over the native numbers, texts as lists of code
--     points, results and actions. Tests: the theorems at concrete inputs.
--
-- How the code is read. A handler is one function, its checks in the source's order. What may fail
-- is a Boolean argument, gathered in a record of faults for each handler, so that a theorem without
-- a condition on it holds whichever call fails. Ids are numbers, and what uuid.Parse and the JSON
-- decoder make of a request is an argument; so are the time, new ids, new tokens, the spelling of
-- storage keys (Keys), strings.ToLower on the names of items, and the hash functions of
-- backend/internal/auth (Crypto). Row locks appear as the order of the requests. An int64 is a
-- natural number where the code keeps it from being negative; sums that can pass the largest int64
-- wrap as in the source (add64).
--
-- Bounds. A recursive query is searched along the chain of parents, with as many steps as there are
-- rows (Database/Tree.antt), or level by level in archives (Zip/Levels.antt); a chain without a
-- repetition is no longer than the rows. The queries use UNION ALL and end only where no folder is
-- above itself, and the definitions stand for them there: what the requests on folders keep
-- (Folders/Requests.antt) makes the query over the folders of a user end within that many rounds
-- (Zip/Ends.antt). The worker's loop (Worker/Process.antt, drain) counts its rounds, and the
-- attempts that the queue has left bound them (Worker/Drain.antt). Worker/Double.antt looks for the
-- highest binary digit among 128, more than the sides of an image and their products have. All other
-- recursion is structural.
--
-- Not modelled: the rest of http/admin.go (settings, the audit log, counters), the decoding of tus
-- metadata, the metadata of a file (getFileMetadata), migrations, metrics, configuration, logging
-- and routing; directories of the storage, ETags, and columns that no modelled handler reads.
pub mod Prelude
pub mod Database
pub mod Storage
pub mod Settings
pub mod Server
pub mod Uploads
pub mod Tus
pub mod Previews
pub mod Downloads
pub mod Shares
pub mod RateLimit
pub mod Nodes
pub mod Folders
pub mod Zip
pub mod Worker
pub mod Accounts
pub mod Tests
