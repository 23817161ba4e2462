-- ===== src/Tests.antt =====
-- Concrete runs: the theorems at inputs where their hypotheses hold.
mod Samples
mod ChunkRuns
mod CompleteRuns
mod TusRuns
mod ShareRuns
mod FileRuns
mod DownloadRuns
mod LimitRuns
mod WorkerRuns
mod FolderRuns
mod BrowseRuns
mod ZipRuns
mod DirectRuns
mod AccountRuns
