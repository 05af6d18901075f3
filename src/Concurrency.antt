-- ===== src/Concurrency.antt =====
-- packages/typescript/src/concurrency.ts
pub mod Counter
pub mod Admission
pub mod Lifetime
pub mod Deadline
