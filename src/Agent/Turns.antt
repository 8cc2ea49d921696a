-- ===== src/Agent/Turns.antt =====
-- packages/agent-ts/src/agent.ts: the turns of an agent, the asks that wait for answers, and the histories.
pub mod Asks
pub mod Lanes
pub mod Inbound
mod Tests
