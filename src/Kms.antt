-- ===== src/Kms.antt =====
-- The tool that provisions and removes the AWS KMS keys of the real-service tests
-- (scripts/real-kms-keys.mjs over scripts/aws-cli.mjs).
pub mod Program
pub mod MapLimit
pub mod Manifest
pub mod Validation
pub mod Teardown
pub mod Cleanup
pub mod Collect
pub mod Setup
pub mod Provision
pub mod Arguments
pub mod Main
mod Tests
mod SetupTests
mod MainTests
