-- ===== src/Worker.antt =====
-- The worker: worker/infrastructure and worker/services.
pub mod Index
pub mod Indexing
pub mod Calls
pub mod Results
pub mod Tasks
pub mod Candidates
pub mod Cache
mod Tests
