-- ===== src/Fingerprint.antt =====
-- The fingerprinting of token streams: plagiarism_core/fingerprinting.
pub mod Rolling
pub mod Core
pub mod Kgrams
pub mod Minima
pub mod Feed
pub mod Winnow
pub mod Positions
pub mod Shared
mod Tests
