-- ===== src/Detection.antt =====
-- The detection of matching regions: plagiarism_core/models.py and plagiarism_core/detection.
pub mod Match
pub mod Lines
pub mod Merge
pub mod Functions
pub mod Pipeline
pub mod Phase1
pub mod Phase2
pub mod Detect
pub mod Occurrences
mod Tests
