-- ===== src/Examples/Intakes.antt =====
-- The theorems on the way of an incoming item at a run with a reconnection.
use fpd.Base.{◌≡◌, refl, true, false, some, none, List, [], ◌∷◌, ◌++◌, All, ok}
use fpd.Websocket.{ping, close}
use fpd.Websocket.Settings.{recv}
use fpd.Websocket.ReadLoop
use fpd.Websocket.Signal.{Signal}
use fpd.Websocket.Intake.{
  Socket, Move, quiet, fresh_reader, fresh_loop, arrives, stream_ends, reader_task, loop_task,
  recv_takes, closes, reconnected, move, run,
}
use fpd.Websocket.Intake.Order.{IsPrefix, deliveries, connections, IsInOrder, run-delivers}
use fpd.Websocket.Intake.Waits.{arrivals, run-waits}
use fpd.Examples.Sockets.{hello, bye}

abbrev opened : Socket
unfolding fresh_reader fresh_loop
opened = record {
  reader = fresh_reader;
  loop = fresh_loop quiet quiet;
  write_loop_runs = true;
  incoming = [];
  taken = [];
  arrived = [];
  past = [];
}

opened-IsInOrder : IsInOrder opened
unfolding fresh_reader fresh_loop
opened-IsInOrder = record {
  by_reader = refl;
  by_loop = refl;
  reader_drops = λ h. refl;
  loop_drops = λ h. refl;
  queue = refl;
  prefixes = tt;
}

-- A ping and a message, the end of the stream, and a message over the next connection.
abbrev reconnection : List Move
reconnection =
    arrives (ok (ping []))
    ∷ arrives (ok hello)
    ∷ reader_task
    ∷ reader_task
    ∷ stream_ends
    ∷ reader_task
    ∷ reader_task
    ∷ loop_task
    ∷ loop_task
    ∷ recv_takes
    ∷ loop_task
    ∷ reconnected quiet quiet
    ∷ arrives (ok bye)
    ∷ reader_task
    ∷ reader_task
    ∷ loop_task
    ∷ loop_task
    ∷ loop_task
    ∷ []

reconnection_takes :
    ((run reconnection opened).taken ≡ ok hello ∷ [])
    × ((run reconnection opened).incoming ≡ ok bye ∷ [])
unfolding run fresh_reader fresh_loop
reconnection_takes = (refl, refl)

run-delivers_example :
    let end = run reconnection opened in
    (end.taken ++ end.incoming ≡ deliveries (connections end)) × All IsPrefix (connections end)
run-delivers_example = run-delivers reconnection opened opened-IsInOrder

-- The server has sent a close frame, which the keepalive has handed on.
abbrev closed_by_server : Socket
unfolding fresh_reader fresh_loop
closed_by_server = record opened { loop = record opened.loop { source = ok (close none) ∷ [] } }

abbrev by_user : Signal
by_user = record { changed = true; alive = true; value = true }

abbrev later : List Move
later = arrives (ok bye) ∷ reader_task ∷ loop_task ∷ reconnected quiet quiet ∷ recv_takes ∷ []

run-waits_example :
    let end = run (loop_task ∷ later) closed_by_server in
    (end.loop.phase ≡ ReadLoop.finished false)
    × (recv (arrivals end) ≡ none)
    × (recv (arrivals (move (closes by_user) end)) ≡ some (none, []))
unfolding fresh_loop fresh_reader
run-waits_example =
    run-waits later by_user closed_by_server none [] refl refl refl refl
      (tt, (tt, (tt, (tt, (tt, tt))))) refl
