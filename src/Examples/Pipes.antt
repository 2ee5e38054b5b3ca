-- ===== src/Examples/Pipes.antt =====
-- The theorems on the way of an outgoing message at a run in which two write loops overlap.
use fpd.Base.{ℕ, ◌≡◌, refl, true, false, List, [], ◌∷◌, map}
use fpd.Websocket.Keepalive.Writer
use fpd.Websocket.Pipe.{
  Connection, Socket, sends, task, write_returns, fresh, connect, Move, loop_task, within,
  connected, run,
}
use fpd.Websocket.Pipe.Pool.{Steps}
use fpd.Websocket.Pipe.Steps.{view}
use fpd.Websocket.Pipe.Refines.{IsValid, sent, run-refines}
use fpd.Examples.Sockets.{quiet_signal, hello, bye}

-- 45 s
abbrev ping_timeout : ℕ
ping_timeout = 45000000000

abbrev opened : Socket
unfolding connect
opened = record {
  shared = record { retry = []; outgoing = []; outgoing_closed = false };
  connections = connect ping_timeout quiet_signal quiet_signal ∷ [];
}

-- The first loop has the message in hand when there is a new connection, whose loop hands on the second
-- message before.
abbrev overlap : List Move
overlap =
    sends hello
    ∷ loop_task 0
    ∷ connected ping_timeout quiet_signal quiet_signal
    ∷ sends bye
    ∷ loop_task 0
    ∷ loop_task 0
    ∷ within 0 task
    ∷ within 0 (write_returns true)
    ∷ loop_task 1
    ∷ within 1 task
    ∷ within 1 (write_returns false)
    ∷ []

overlap-view : view (run overlap opened) ≡ record {
  waiting = [];
  ports = record { hand = []; given = bye ∷ [] } ∷ record { hand = []; given = hello ∷ [] } ∷ [];
}
unfolding run connect fresh Writer.move
overlap-view = refl

overlap_writes :
    map (λ (c : Connection). c.writer.written) (run overlap opened).connections
    ≡ (Writer.user bye ∷ []) ∷ [] ∷ []
unfolding run connect fresh Writer.move
overlap_writes = refl

opened-IsValid : IsValid opened
unfolding connect fresh
opened-IsValid = ((λ h. refl), tt)

run-refines_example : Steps (view opened) (sent overlap) (view (run overlap opened))
run-refines_example = run-refines overlap opened opened-IsValid
