-- ===== src/Websocket/Intake.antt =====
-- The way of an incoming item through src/tasks/tokio_tungstenite_reconnect/: the read loop of the
-- `WebSocketKeepAlive` of a connection, and behind it the read loop of the `ReconnectingWebSocket`,
-- whose channel `recv` takes the items from.
pub mod Order
pub mod Waits
use fpd.Base.{
  ℕ, Bool, true, false, not, ◌&&◌, ◌||◌, Option, none, some, List, [], ◌∷◌, ◌++◌, length, drop, ltb,
  if◌then◌else◌,
}
use fpd.Websocket.Signal.{Signal}
use fpd.Websocket.WriteLoop.{Sink, room, full, gone}
use fpd.Websocket.ReadLoop
use fpd.Websocket.ReadLoop.{Item}
use fpd.Websocket.Keepalive.Reader

-- `bounded(1)`, for both incoming channels
abbrev pub incoming_capacity : ℕ
incoming_capacity = 1

abbrev pub sink_of : Bool → List Item → Sink
sink_of false queue = gone
sink_of true queue = if ltb (length queue) incoming_capacity then room else full

-- A signal that nobody has sent on.
abbrev pub quiet : Signal
quiet = record { changed = false; alive = true; value = false }

-- What a new connection starts with.
unfoldable pub fresh_reader : Reader.Channels
fresh_reader = record {
  phase = Reader.selecting;
  source = [];
  source_closed = false;
  sink = room;
  delivered = [];
  dropped = [];
  disconnect = quiet;
}

-- `disconnect` and `user_close` are the receivers that the loop clones.
unfoldable pub fresh_loop : (disconnect user_close : Signal) → ReadLoop.Channels
unfolding ReadLoop.spawn
fresh_loop disconnect user_close = ReadLoop.spawn (record {
  phase = ReadLoop.selecting;
  source = [];
  source_closed = false;
  sink = room;
  delivered = [];
  dropped = [];
  disconnect = disconnect;
  user_close = user_close;
  has_handle = true;
})

-- The two loops of the connection, the incoming channel of the socket, and what `recv` took from it.
-- `arrived` is what the connection's stream gave, and `past` has that of each connection before and
-- what its loop delivered, newest first.
pub record Socket : Type 0 where
  pub reader : Reader.Channels
  pub loop : ReadLoop.Channels
  -- The write loop holds a clone of the connection's handle, with its receiver.
  pub write_loop_runs : Bool
  pub incoming : List Item
  pub taken : List Item
  pub arrived : List Item
  pub past : List (List Item × List Item)

pub data Move : Type 0 where
  arrives : Item → Move
  stream_ends : Move
  reader_task : Move
  loop_task : Move
  reader_disconnect loop_disconnect closes : Signal → Move
  handles_dropped : Move
  recv_takes : Move
  write_loop_ends : Move
  -- The read loop's `connect` has made a connection, whose read loop has these clones of the
  -- receivers.
  reconnected : (disconnect user_close : Signal) → Move

abbrev pub reader_ended : Reader.Phase → Bool
reader_ended Reader.finished = true
reader_ended _ = false

-- The read loop of the socket holds a receiver of the keepalive's channel, while it runs, and so does
-- the write loop.
abbrev pub loop_runs : ReadLoop.Phase → Bool
loop_runs (ReadLoop.finished should_reconnect) = false
loop_runs _ = true

abbrev pub asks_to_reconnect : ReadLoop.Phase → Bool
asks_to_reconnect (ReadLoop.finished should_reconnect) = should_reconnect
asks_to_reconnect _ = false

-- What the keepalive delivers goes into its channel; the end of its loop closes that.
unfoldable pub read_on : Reader.Channels → Socket → Socket
read_on next s = record s {
  reader = next;
  loop = record s.loop {
    source = s.loop.source ++ drop (length s.reader.delivered) next.delivered;
    source_closed = s.loop.source_closed || reader_ended next.phase;
  };
}

unfoldable pub deliver : ReadLoop.Channels → Socket → Socket
deliver next s = record s {
  loop = next;
  incoming = s.incoming ++ drop (length s.loop.delivered) next.delivered;
}

abbrev pub seen_by_reader : Socket → Reader.Channels
seen_by_reader s = record s.reader {
  sink = sink_of (loop_runs s.loop.phase || s.write_loop_runs) s.loop.source;
}

-- Each handle holds a receiver of the incoming channel.
abbrev pub seen_by_loop : Socket → ReadLoop.Channels
seen_by_loop s = record s.loop { sink = sink_of s.loop.has_handle s.incoming }

abbrev pub take_first : List Item → Socket → Socket
take_first [] s = s
take_first (item ∷ rest) s = record s { incoming = rest; taken = s.taken ++ (item ∷ []) }

-- The loop connects while a handle is left, and only if it has ended so.
unfoldable pub reconnect : Bool → (disconnect user_close : Signal) → Socket → Socket
unfolding fresh_reader fresh_loop
reconnect false disconnect user_close s = s
reconnect true disconnect user_close s = record s {
  reader = fresh_reader;
  loop = fresh_loop disconnect user_close;
  write_loop_runs = true;
  arrived = [];
  past = (s.arrived, s.loop.delivered) ∷ s.past;
}

unfoldable pub move : Move → Socket → Socket
unfolding read_on deliver reconnect Reader.move ReadLoop.move
move (arrives item) s = record s {
  reader = Reader.move (Reader.arrived item) s.reader;
  arrived = s.arrived ++ (item ∷ []);
}
move stream_ends s = record s { reader = Reader.move Reader.source_ended s.reader }
move reader_task s = read_on (Reader.move Reader.task (seen_by_reader s)) s
move loop_task s = deliver (ReadLoop.move ReadLoop.task (seen_by_loop s)) s
move (reader_disconnect signal) s = record s {
  reader = Reader.move (Reader.disconnect_becomes signal) s.reader;
}
move (loop_disconnect signal) s = record s {
  loop = ReadLoop.move (ReadLoop.disconnect_becomes signal) s.loop;
}
move (closes signal) s = record s { loop = ReadLoop.move (ReadLoop.close_becomes signal) s.loop }
move handles_dropped s = record s { loop = ReadLoop.move ReadLoop.handles_dropped s.loop }
move recv_takes s = take_first s.incoming s
move write_loop_ends s = record s { write_loop_runs = false }
move (reconnected disconnect user_close) s =
    reconnect (s.loop.has_handle && asks_to_reconnect s.loop.phase) disconnect user_close s

unfoldable pub run : List Move → Socket → Socket
unfolding move
run [] s = s
run (m ∷ moves) s = run moves (move m s)
