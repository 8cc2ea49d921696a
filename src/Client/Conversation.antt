-- ===== src/Client/Conversation.antt =====
-- packages/client-ts/src/conversation.ts
pub mod State
pub mod ClientId
pub mod Outbound
pub mod Inbound
pub mod Handlers
pub mod Lifecycle
pub mod Window
pub mod OnceOnWire
pub mod Emissions
pub mod OnceEmitted
pub mod Reported
pub mod Session
pub mod GapTimer
pub mod GapStuck
pub mod GapForever
pub mod Retry
pub mod Final
mod Tests
