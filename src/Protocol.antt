-- ===== src/Protocol.antt =====
-- packages/typescript/src/protocol.ts
pub mod Frames
pub mod Upload
pub mod Payloads
pub mod Headers
