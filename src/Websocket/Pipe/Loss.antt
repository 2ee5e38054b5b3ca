-- ===== src/Websocket/Pipe/Loss.antt =====
-- What a connection that ends can take with it.
use fpd.Base.{◌≡◌, ◌≤◌, Option, List, ◌++◌, length, All}
use fpd.Websocket.{Message}
use fpd.Websocket.WriteLoop
use fpd.Websocket.Keepalive.Writer
use fpd.Websocket.Keepalive.Writer.Laws.{held, messages, pending}
use fpd.Websocket.Pipe.{Connection}

-- The messages that a connection was given and has not written.
abbrev pub unwritten : Writer.Channels → List Message
unwritten w = held w.phase ++ (messages w.failed ++ w.outgoing)

-- The channel holds one message at most, and one frame at most has failed.
abbrev pub IsSmall : Writer.Channels → Type 0
IsSmall w = (length w.outgoing ≤ 1) × (length w.failed ≤ 1)

abbrev pub AreSmall : List Connection → Type 0
AreSmall cs = All (λ (c : Connection). IsSmall c.writer) cs

-- What the connection has written comes first of what it was given, and two messages at most are
-- behind that.
abbrev pub LosesFew : Writer.Channels → Type 0
LosesFew w = (pending w ≡ messages w.written ++ unwritten w) × (length (unwritten w) ≤ 2)
