-- ===== src/Client/Transport.antt =====
-- packages/client-ts/src/transport: the transports under a session.
pub mod Sse
pub mod Phoenix
mod Tests
