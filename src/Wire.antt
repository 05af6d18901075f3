-- ===== src/Wire.antt =====
-- The wire contracts of the SDK: packages/typescript/src/generated.
pub mod Value
pub mod Checks
pub mod Schema
pub mod Contracts
pub mod Validators
