-- ===== src/Cli.antt =====
-- The command line of the npm package, npm/core/bin/awskms.js.
pub mod NodeOptions
pub mod Command
pub mod Dispatch
mod Tests
