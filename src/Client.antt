-- ===== src/Client.antt =====
-- packages/client-ts: the end-user client.
pub mod Frames
pub mod CloseCode
pub mod Outbox
pub mod Receive
pub mod Token
pub mod Conversation
pub mod Transport
mod Tests
