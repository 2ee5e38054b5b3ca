-- ===== src/Examples/Keepalives.antt =====
-- The theorems on src/tasks/tokio_tungstenite_reconnect/websocket_keepalive.rs at concrete inputs.
use mathlib.Core.Option
use fpd.Base.{◌≤◌, ◌≡◌, ◌↔◌, refl, true, false, none, some, List, [], ◌∷◌, ok}
use fpd.Websocket.{Message, text, ping}
use fpd.Websocket.Signal.{Signal, is_ready}
use fpd.Websocket.WriteLoop.{room}
use fpd.Websocket.Keepalive.Writer
use fpd.Websocket.Keepalive.Writer.{
  Channels, Frame, user, keepalive_ping, Move, task, write_returns, close_returns, produced, passes,
}
use fpd.Websocket.Keepalive.Writer.Laws.{poll-ping, HasStopped, run-disconnected}
use fpd.Websocket.Keepalive.Reader

abbrev quiet_signal : Signal
quiet_signal = record { changed = false; alive = true; value = false }

abbrev told_signal : Signal
told_signal = record { changed = true; alive = true; value = true }

abbrev hello : Message
hello = text "hello"

abbrev bye : Message
bye = text "bye"

abbrev writer : List Message → Signal → Channels
writer queued disconnect = record {
  phase = Writer.selecting;
  ping_timeout = 45;
  waited = 0;
  outgoing = queued;
  outgoing_closed = false;
  written = [];
  failed = [];
  disconnect = disconnect;
  closed = none;
}

-- The first message is written, a ping follows, and the second message fails.
abbrev writer_moves : List Move
writer_moves =
    task
    ∷ write_returns true
    ∷ passes 45
    ∷ task
    ∷ write_returns true
    ∷ produced bye
    ∷ task
    ∷ write_returns false
    ∷ []

writer_writes :
    (Writer.run writer_moves (writer (hello ∷ []) quiet_signal)).written
    ≡ user hello ∷ keepalive_ping ∷ []
unfolding Writer.run
writer_writes = refl

abbrev waiting : Channels
waiting = record (writer [] quiet_signal) { waited = 50 }

poll-ping_example :
    (Option.map (λ (n : Channels). n.phase) (Writer.poll waiting.phase waiting)
      ≡ some (Writer.writing keepalive_ping))
    ↔ ((is_ready waiting.disconnect ≡ false)
        × (waiting.outgoing ≡ [])
        × (waiting.outgoing_closed ≡ false)
        × (45 ≤ 50))
poll-ping_example = poll-ping waiting refl

abbrev told_writer : Writer.Channels
told_writer = writer (hello ∷ []) told_signal

run-disconnected_example :
    HasStopped [] (Writer.run (task ∷ task ∷ close_returns false ∷ []) told_writer)
    × (let told = Writer.run (task ∷ task ∷ []) told_writer in
        (told.disconnect.value ≡ true)
        × (told.disconnect.changed ≡ true)
        × (told.outgoing ≡ hello ∷ [])
        × ((Writer.move (close_returns false) told).phase ≡ Writer.finished)
        × ((Writer.move (close_returns false) told).closed ≡ some false))
run-disconnected_example =
    run-disconnected (task ∷ close_returns false ∷ []) false told_writer refl refl

abbrev reader : Reader.Channels
reader = record {
  phase = Reader.selecting;
  source = ok (ping []) ∷ ok hello ∷ [];
  source_closed = false;
  sink = room;
  delivered = [];
  dropped = [];
  disconnect = quiet_signal;
}

abbrev reader_moves : List Reader.Move
reader_moves = Reader.task ∷ Reader.arrived (ok bye) ∷ Reader.task ∷ Reader.task ∷ []
