-- ===== src/Release.antt =====
-- scripts/release.py: what is staged for a release.
pub mod Copy
pub mod Packages
pub mod Check
pub mod Rewrite
pub mod Stage
pub mod Build
pub mod Inspect
pub mod Main
pub mod Samples
mod Tests
