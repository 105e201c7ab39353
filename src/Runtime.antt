-- ===== src/Runtime.antt =====
-- The runtime of the npm distribution (npm/core/index.js).
pub mod Host
mod Tests
mod ConfigTests
pub mod Logic
pub mod Target
pub mod Metadata
pub mod Satellite
pub mod Directory
pub mod Rendezvous
pub mod File
pub mod Config
pub mod Entry
