-- ===== src/Agent.antt =====
-- packages/agent-ts: the agent's connection, its outbound queue, its turns and its replies.
pub mod Watermarks
pub mod Outbound
pub mod Socket
pub mod Turns
pub mod Reply
mod Tests
