-- ===== src/Lib.antt =====
-- A verification library for two TypeScript packages of Converger: packages/client-ts, the client of a
-- conversation, and packages/agent-ts, a channel's agent. Both talk JSON frames to the Converger server
-- over a connection that may be lost at any time.
--
-- The parts and their files:
--   Backoff            packages/client-ts/src/backoff.ts and packages/agent-ts/src/backoff.ts
--   Emitter            packages/client-ts/src/emitter.ts and packages/agent-ts/src/emitter.ts
--   Client/Frames      packages/client-ts/src/protocol/frames.ts, with Client/CloseCode
--   Client/Token       packages/client-ts/src/token.ts (TokenManager)
--   Client/Outbox      packages/client-ts/src/storage/outbox.ts (ConversationStore): Entries, Store, and
--                      Persistence for the storage and JSON, which are a map and a parameter
--   Client/Receive     packages/client-ts/src/conversation.ts: #watermark, #seen, #ownSeqs, #ownIds
--   Client/Conversation  the rest of conversation.ts. State has the fields of the class; Outbound is
--                      send, #flush, #settle and #scheduleRetry; Inbound is #onPersistent, #onAck,
--                      #markSeen, #ownTurn and #checkGap; Handlers is #onFrame, #onWelcome and #onError;
--                      Lifecycle is #connect, #onClose, #scheduleReconnect, #close, start, resume and
--                      disconnect; Session has the other operations and the steps of a session
--   Agent/Watermarks   packages/agent-ts/src/watermarks.ts (WatermarkTracker)
--   Agent/Outbound     packages/agent-ts/src/agent.ts: #pump and its token bucket; Queue has #enqueue, the
--                      acks and errors, #tick, #onWelcome, #onClose, #scheduleReconnect and stop
--   Agent/Socket       packages/agent-ts/src/socket.ts (AgentSocket)
--   Agent/Turns        packages/agent-ts/src/agent.ts: Lanes has #dispatch, #runTurn, #acquire and #release,
--                      Asks has #waitForAnswer, #onResume and the ends of asks; Inbound has #history
--                      and the frames that become turns
--   Agent/Reply        packages/agent-ts/src/reply.ts: ReplyImpl; Stream is StreamImpl
--   Client/Transport   packages/client-ts/src/transport: Sse is sse.ts, with Stream for the cutting of a
--                      stream into events and Session for the transport; Phoenix is phoenix.ts
--   Js                 JavaScript's Set and Map as lists in insertion order
--
-- How code is modelled. A method that changes fields is a function from the state to the state, and what
-- it does outside is appended to a list of outputs: events, settled promises, timers, frames written. A
-- continuation after an `await` is an event of its own, so a run is any list of events in any order.
-- What code reads outside while it runs (the clock, a random draw, whether the socket takes a frame) is
-- an argument. A timer is a handle that stays where the code leaves it, with a flag that tells whether it
-- is still to fire. Listeners run outside of a step: a listener that calls back in the midst of a
-- handler is not modelled.
--
-- Bounds and fuel. Numbers are natural numbers, where the code relies on integers. The loop of #markSeen
-- runs on fuel, the number of seqs in #seen: each round takes one out. The loop that cuts an SSE stream
-- into events runs on fuel, the length of the text: each event takes a character at least. The emitter's
-- emit runs on fuel, the number of calls of it within each other. Random draws and jitter are
-- fractions and rounding is exact, the growth factor of the delays is a whole number. The tokens of the
-- agent's bucket are counted in thousandths, in which the refill is whole.
--
-- Not modelled: the native transport, which is the twin of the agent's socket, REST, the JWT's text, the
-- objects that describe a turn (turn.ts), and the server, of which the text
-- of an SSE event is modelled (lib/converger_web/controllers/converger/event_stream_controller.ex).
mod Prelude
pub mod Js
pub mod Backoff
pub mod Emitter
pub mod Client
pub mod Agent
