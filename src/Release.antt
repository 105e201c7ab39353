-- ===== src/Release.antt =====
-- The release scripts of the repository, scripts/release-version.mjs.
pub mod Version
pub mod Sync
pub mod Check
mod Tests
