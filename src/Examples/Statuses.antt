-- ===== src/Examples/Statuses.antt =====
-- The theorems on the state of the socket at runs with a reconnection.
use fpd.Base.{◌≡◌, refl, true, false, ◌⊎◌, inr, String, List, [], ◌∷◌, ◌++◌, All}
use fpd.Websocket.Settings.{is_connected}
use fpd.Websocket.WriteLoop
use fpd.Websocket.WriteLoop.{full}
use fpd.Websocket.ReadLoop
use fpd.Websocket.Status.{
  Socket, Move, read_task, write_task, connected, old_write_loop_ends, stream_ends, sends,
  reader_ended, run, first,
}
use fpd.Websocket.Status.Truth.{LeavesOpen}
use fpd.Service.Health.{get, respond}
use fpd.Service.Health.Truth.{healthy-reads}
use fpd.Examples.Sockets.{socket, hello}

abbrev loses_stream : List Move
loses_stream = read_task ∷ stream_ends ∷ read_task ∷ write_task ∷ []

-- The first connection has ended, and its loops with it.
abbrev disconnected : Socket (Unit {0})
unfolding run first
disconnected = run loses_stream (first socket)

disconnected_is :
    (disconnected.reader.phase ≡ ReadLoop.finished true)
    × (disconnected.writer.phase ≡ WriteLoop.finished)
    × (is_connected disconnected.inner ≡ false)
unfolding run first is_connected
disconnected_is = (refl, refl, refl)

-- The read loop of the new connection runs first, and a message is sent.
in_turn_is :
    let end =
      run
        (connected ∷ read_task ∷ write_task ∷ sends hello ∷ write_task ∷ write_task ∷ [])
        disconnected in
    (is_connected end.inner ≡ true) × (end.writer.delivered ≡ hello ∷ [])
unfolding run first is_connected
in_turn_is = (refl, refl)

-- The write loop of the first connection still runs when there is a second, and ends then.
overlap_is :
    let end =
      run
        (read_task ∷ stream_ends ∷ read_task ∷ connected ∷ old_write_loop_ends ∷ [])
        (first socket) in
    (end.outlived ≡ 0) × (is_connected end.inner ≡ false)
unfolding run first is_connected
overlap_is = (refl, refl)

abbrev health : String
health = "/health"

healthy-reads_example :
    let end = run (loses_stream ++ (connected ∷ read_task ∷ [])) (first socket) in
    ((respond end.inner (inr "m") get health).status ≡ 502)
    ⊎ ((reader_ended end.reader.phase ≡ false)
        × All (λ m. LeavesOpen m) (loses_stream ++ (connected ∷ read_task ∷ [])))
healthy-reads_example =
    healthy-reads (inr "m") (loses_stream ++ (connected ∷ read_task ∷ [])) socket
