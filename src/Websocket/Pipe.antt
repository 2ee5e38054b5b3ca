-- ===== src/Websocket/Pipe.antt =====
-- The way of an outgoing message through src/tasks/tokio_tungstenite_reconnect/: the write loop of
-- the `ReconnectingWebSocket`, and behind it the write loop of the `WebSocketKeepAlive` of each
-- connection, joined by the keepalive's outgoing channel.
pub mod Pool
pub mod Conserves
pub mod Steps
pub mod Refines
pub mod Loss
use fpd.Base.{ℕ, zero, suc, Bool, Option, some, none, List, [], ◌∷◌, ◌++◌, length, drop, ltb}
use fpd.Base.{if◌then◌else◌, false, true}
use fpd.Websocket.{Message}
use fpd.Websocket.Signal.{Signal}
use fpd.Websocket.WriteLoop
use fpd.Websocket.WriteLoop.{Sink, room, full, gone}
use fpd.Websocket.Keepalive.Writer

-- `bounded(1)`, for the outgoing channel of the keepalive
abbrev pub outgoing_capacity : ℕ
outgoing_capacity = 1

-- What a new connection starts with: its channels are empty and nobody has told it to disconnect.
unfoldable pub fresh : ℕ → Writer.Channels
fresh ping_timeout = record {
  phase = Writer.selecting;
  ping_timeout = ping_timeout;
  waited = 0;
  outgoing = [];
  outgoing_closed = false;
  written = [];
  failed = [];
  disconnect = record { changed = false; alive = true; value = false };
  closed = none;
}

-- The task owns the receiver of the channel, which goes with it.
abbrev pub sink_of_phase : Writer.Phase → List Message → Sink
sink_of_phase Writer.finished queue = gone
sink_of_phase _ queue = if ltb (length queue) outgoing_capacity then room else full

abbrev pub sink_of : Writer.Channels → Sink
sink_of w = sink_of_phase w.phase w.outgoing

-- The channels that the write loops of all connections share.
pub record Shared : Type 0 where
  pub retry : List Message
  pub outgoing : List Message
  pub outgoing_closed : Bool

-- The loop of a connection, which owns its signals, and the writer behind it. What the loop's own
-- record has of the shared channels and of the sink is set anew at each of its steps.
pub record Connection : Type 0 where
  pub loop : WriteLoop.Channels
  pub writer : Writer.Channels

-- The connections, newest first. The loop of an old one may still run.
pub record Socket : Type 0 where
  pub shared : Shared
  pub connections : List Connection

-- What the read loops and the clients do to the signals of a write loop.
pub data Heard : Type 0 where
  disconnect_becomes close_becomes : Signal → Heard
  handles_dropped : Heard

abbrev pub loop_move : Heard → WriteLoop.Move
loop_move (disconnect_becomes signal) = WriteLoop.disconnect_becomes signal
loop_move (close_becomes signal) = WriteLoop.close_becomes signal
loop_move handles_dropped = WriteLoop.handles_dropped

-- What happens at one connection: a step of the writer, a write or the close that returns, time, the
-- end of the senders, or a disconnect.
pub data Within : Type 0 where
  task : Within
  write_returns close_returns : Bool → Within
  passes : ℕ → Within
  senders_gone : Within
  disconnect_becomes : Signal → Within

abbrev pub writer_move : Within → Writer.Move
writer_move task = Writer.task
writer_move (write_returns success) = Writer.write_returns success
writer_move (close_returns success) = Writer.close_returns success
writer_move (passes time) = Writer.passes time
writer_move senders_gone = Writer.producers_gone
writer_move (disconnect_becomes signal) = Writer.disconnect_becomes signal

-- The index of a connection is its place in the list. A new connection has clones of the signals.
pub data Move : Type 0 where
  sends : Message → Move
  no_senders : Move
  loop_task : ℕ → Move
  hears : ℕ → Heard → Move
  within : ℕ → Within → Move
  connected : (ping_timeout : ℕ) (disconnect close : Signal) → Move

abbrev pub seeing : Shared → Connection → WriteLoop.Channels
seeing shared c = record c.loop {
  retry = shared.retry;
  outgoing = shared.outgoing;
  outgoing_closed = shared.outgoing_closed;
  sink = sink_of c.writer;
}

-- What the loop has handed on goes into the channel of its connection.
unfoldable pub hand_on : WriteLoop.Channels → Connection → Connection
hand_on next c = record {
  loop = next;
  writer = record c.writer {
    outgoing = c.writer.outgoing ++ drop (length c.loop.delivered) next.delivered;
  };
}

abbrev pub left_by : WriteLoop.Channels → Shared → Shared
left_by next shared = record shared { retry = next.retry; outgoing = next.outgoing }

-- A step of the loop of the connection at an index.
unfoldable pub loop_at : ℕ → Shared → List Connection → Shared × List Connection
unfolding hand_on WriteLoop.move
loop_at k shared [] = (shared, [])
loop_at zero shared (c ∷ cs) =
    let next = WriteLoop.move WriteLoop.task (seeing shared c) in
    (left_by next shared, hand_on next c ∷ cs)
loop_at (suc k) shared (c ∷ cs) = let (left, others) = loop_at k shared cs in (left, c ∷ others)

unfoldable pub change_at : ℕ → (Connection → Connection) → List Connection → List Connection
change_at k change [] = []
change_at zero change (c ∷ cs) = change c ∷ cs
change_at (suc k) change (c ∷ cs) = c ∷ change_at k change cs

-- `spawn_write_loop` for a new connection, also while the loops of others run.
unfoldable pub connect : ℕ → Signal → Signal → Connection
unfolding fresh
connect ping_timeout disconnect close = record {
  loop = record {
    phase = WriteLoop.selecting;
    retry = [];
    outgoing = [];
    outgoing_closed = false;
    sink = room;
    delivered = [];
    disconnect = disconnect;
    close = close;
    has_handle = true;
  };
  writer = fresh ping_timeout;
}

unfoldable pub move : Move → Socket → Socket
unfolding loop_at change_at connect WriteLoop.move Writer.move
move (sends message) s = record s {
  shared = record s.shared { outgoing = s.shared.outgoing ++ (message ∷ []) };
}
move no_senders s = record s { shared = record s.shared { outgoing_closed = true } }
move (loop_task k) s =
    let (shared, connections) = loop_at k s.shared s.connections in
    record { shared = shared; connections = connections }
move (hears k h) s = record s {
  connections =
      change_at k (λ c. record c { loop = WriteLoop.move (loop_move h) c.loop }) s.connections;
}
move (within k m) s = record s {
  connections =
      change_at k (λ c. record c { writer = Writer.move (writer_move m) c.writer }) s.connections;
}
move (connected ping_timeout disconnect close) s = record s {
  connections = connect ping_timeout disconnect close ∷ s.connections;
}

unfoldable pub run : List Move → Socket → Socket
unfolding move
run [] s = s
run (m ∷ moves) s = run moves (move m s)
