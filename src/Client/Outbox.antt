-- ===== src/Client/Outbox.antt =====
-- packages/client-ts/src/storage/outbox.ts: the persistent outbox and the resume state of one
-- conversation.
pub mod Entries
pub mod Store
pub mod Persistence
pub mod Reload
