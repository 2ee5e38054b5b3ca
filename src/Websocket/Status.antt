-- ===== src/Websocket/Status.antt =====
-- The two loops of a connection of src/tasks/tokio_tungstenite_reconnect/reconnecting_websocket.rs
-- with the disconnect channel between them, whose value `is_connected` reads.
pub mod Truth
use fpd.Base.{
  ℕ, zero, suc, ◌+◌, Bool, true, false, Option, none, some, List, [], ◌∷◌, ◌++◌, if◌then◌else◌,
}
use fpd.Websocket.{Message}
use fpd.Websocket.Signal.{Signal, send_replace}
use fpd.Websocket.Settings.{Inner, close}
use fpd.Websocket.WriteLoop
use fpd.Websocket.WriteLoop.{Sink, room}
use fpd.Websocket.ReadLoop
use fpd.Websocket.ReadLoop.{Item}

-- The loops of the last connection. `started`: whether the task of the read loop has run at all.
-- The socket's own receiver of the disconnect channel is only cloned and borrowed, so what was sent
-- stays unseen there: `unseen` is whether anything was.
pub record Socket (S : Type 0) : Type 0 where
  pub inner : Inner S
  pub unseen : Bool
  pub started : Bool
  -- The write loops of connections before that still run.
  pub outlived : ℕ
  pub reader : ReadLoop.Channels
  pub writer : WriteLoop.Channels

-- Both loops hold a handle of the keepalive and of the socket's channels; the service holds the
-- socket, so `upgrade` gives it.
pub data Move : Type 0 where
  read_task write_task : Move
  connected : Move
  old_write_loop_ends : Move
  arrives : Item → Move
  stream_ends : Move
  incoming_becomes keepalive_becomes : Sink → Move
  sends : Message → Move
  closes : Move

abbrev pub reader_ended : ReadLoop.Phase → Bool
reader_ended (ReadLoop.finished b) = true
reader_ended _ = false

abbrev pub writer_ended : WriteLoop.Phase → Bool
writer_ended WriteLoop.finished = true
writer_ended _ = false

module _ {S : Type 0} where
  -- A clone of a receiver has the value and what its origin has not seen. The close channel is only
  -- ever sent `true`.
  abbrev pub disconnect_clone : Socket S → Signal
  disconnect_clone s = record { changed = s.unseen; alive = true; value = s.inner.disconnected }

  abbrev pub close_clone : Socket S → Signal
  close_clone s = record { changed = s.inner.closed; alive = true; value = s.inner.closed }

  -- A loop sends on the disconnect channel: its own receiver is changed where the loop is, and here
  -- the value and the receiver of the other loop.
  abbrev pub reader_tells : Bool → Socket S → Socket S
  reader_tells value s = record s {
    inner = record s.inner { disconnected = value };
    unseen = true;
    writer = record s.writer { disconnect = send_replace value s.writer.disconnect };
  }

  abbrev pub writer_tells : Bool → Socket S → Socket S
  writer_tells value s = record s {
    inner = record s.inner { disconnected = value };
    unseen = true;
    reader = record s.reader { disconnect = send_replace value s.reader.disconnect };
  }

  unfoldable pub read_on : Option ReadLoop.Channels → Socket S → Socket S
  read_on none s = s
  read_on (some next) s =
      if reader_ended next.phase
      then reader_tells true (record s { reader = next })
      else record s { reader = next }

  unfoldable pub read : Bool → Socket S → Socket S
  unfolding ReadLoop.spawn ReadLoop.poll read_on
  read false s = reader_tells false (record s { reader = ReadLoop.spawn s.reader; started = true })
  read true s = read_on (ReadLoop.poll s.reader) s

  unfoldable pub write_on : Option WriteLoop.Channels → Socket S → Socket S
  write_on none s = s
  write_on (some next) s =
      if writer_ended next.phase
      then writer_tells true (record s { writer = next })
      else record s { writer = next }

  -- `initiate_connection` spawns the loops, which begin with clones of the receivers.
  unfoldable pub spawn_loops : Socket S → Socket S
  spawn_loops s = record s {
    started = false;
    reader = record {
      phase = ReadLoop.selecting;
      source = [];
      source_closed = false;
      sink = s.reader.sink;
      delivered = s.reader.delivered;
      dropped = [];
      disconnect = disconnect_clone s;
      user_close = close_clone s;
      has_handle = true;
    };
    writer = record s.writer {
      phase = WriteLoop.selecting;
      sink = room;
      disconnect = disconnect_clone s;
      close = close_clone s;
      has_handle = true;
    };
  }

  -- The read loop that has ended makes a new connection if it asks for one, also while the write loop
  -- still runs.
  unfoldable pub reconnect : ReadLoop.Phase → Socket S → Socket S
  unfolding spawn_loops
  reconnect (ReadLoop.finished true) s =
      spawn_loops
        (record s { outlived = if writer_ended s.writer.phase then s.outlived else s.outlived + 1 })
  reconnect _ s = s

  -- An old write loop sends on the channel that all share.
  unfoldable pub old_ends : ℕ → Socket S → Socket S
  old_ends zero s = s
  old_ends (suc n) s = writer_tells true (reader_tells true (record s { outlived = n }))

  unfoldable pub move : Move → Socket S → Socket S
  unfolding read write_on reconnect old_ends close WriteLoop.poll
  move read_task s = read s.started s
  move write_task s = write_on (WriteLoop.poll s.writer) s
  move connected s = reconnect s.reader.phase s
  move old_write_loop_ends s = old_ends s.outlived s
  move (arrives item) s = record s {
    reader = record s.reader { source = s.reader.source ++ (item ∷ []) };
  }
  move stream_ends s = record s { reader = record s.reader { source_closed = true } }
  move (incoming_becomes sink) s = record s { reader = record s.reader { sink = sink } }
  move (keepalive_becomes sink) s = record s { writer = record s.writer { sink = sink } }
  move (sends message) s = record s {
    writer = record s.writer {
      outgoing = if s.inner.closed then s.writer.outgoing else s.writer.outgoing ++ (message ∷ []);
    };
  }
  move closes s = record s {
    inner = close s.inner;
    reader = record s.reader { user_close = send_replace true s.reader.user_close };
    writer = record s.writer { close = send_replace true s.writer.close };
  }

  unfoldable pub run : List Move → Socket S → Socket S
  unfolding move
  run [] s = s
  run (m ∷ moves) s = run moves (move m s)

  -- The socket at its first connection, with its channels empty.
  unfoldable pub first : Inner S → Socket S
  unfolding spawn_loops
  first inner = spawn_loops (record {
    inner = inner;
    unseen = false;
    started = false;
    outlived = 0;
    reader = record {
      phase = ReadLoop.selecting;
      source = [];
      source_closed = false;
      sink = room;
      delivered = [];
      dropped = [];
      disconnect = record { changed = false; alive = true; value = false };
      user_close = record { changed = false; alive = true; value = false };
      has_handle = true;
    };
    writer = record {
      phase = WriteLoop.selecting;
      retry = [];
      outgoing = [];
      outgoing_closed = false;
      sink = room;
      delivered = [];
      disconnect = record { changed = false; alive = true; value = false };
      close = record { changed = false; alive = true; value = false };
      has_handle = true;
    };
  })
