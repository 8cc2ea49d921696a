-- ===== src/Client/Receive.antt =====
-- packages/client-ts/src/conversation.ts: what a session remembers of the seqs that it received,
-- `#markSeen` and the parts of `#onPersistent`, `#settle` and `#onWelcome` that read or write it.
pub mod Watermark
pub mod Known
pub mod Contiguous
