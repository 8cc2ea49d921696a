-- ===== src/Client/Transport/Sse.antt =====
-- packages/client-ts/src/transport/sse.ts: the Server-Sent Events fallback.
pub mod Stream
pub mod Chunks
pub mod Payload
pub mod Session
pub mod Recent
pub mod Acks
pub mod Agreement
pub mod Closing
