-- ===== src/Client/CloseCode.antt =====
-- packages/client-ts/src/protocol/frames.ts: `CloseCode`, the codes that a session reads.
use converger.Prelude.{ℕ}

abbrev pub normal : ℕ
normal = 1000

abbrev pub conversation_not_found : ℕ
conversation_not_found = 1008

abbrev pub unsupported_protocol : ℕ
unsupported_protocol = 4400

abbrev pub unauthorized : ℕ
unauthorized = 4401

abbrev pub forbidden : ℕ
forbidden = 4403
