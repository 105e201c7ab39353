-- ===== src/Lifecycle.antt =====
-- The life cycle of a release (scripts/release-lifecycle.mjs).
pub mod Machine
pub mod Clock
pub mod Rules
pub mod Payload
pub mod Attestation
pub mod Notes
pub mod Github
pub mod Npm
pub mod Artifacts
mod Tests
