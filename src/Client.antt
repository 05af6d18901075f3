-- ===== src/Client.antt =====
-- packages/typescript/src/client.ts.
pub mod Assembly
pub mod Body
