-- ===== src/Websocket/Intake/Waits.antt =====
-- `recv` after a close frame of the server.
use mathlib.Core.Path.{subst}
use fpd.Base.{
  ℕ, ◌≡◌, refl, sym, ap, ◌∙◌, arith, true, false, Bool, Option, none, some, List, [], ◌∷◌, ◌++◌,
  drop_all, map, All, ◌&&◌, ok, if◌then◌else◌,
}
use fpd.Websocket.{close}
use fpd.Websocket.Signal.{Signal}
use fpd.Websocket.Settings.{Arrival, incoming, close_changed, recv}
use fpd.Websocket.ReadLoop
use fpd.Websocket.ReadLoop.{Item, Channels}
use fpd.Websocket.ReadLoop.Grows.{task-finished, task-close_frame}
use fpd.Websocket.Intake.{
  Socket, Move, loop_task, recv_takes, closes, reconnected, seen_by_loop, deliver, take_first,
  asks_to_reconnect, move, run, reconnect,
}

-- What a call of `recv` finds: the items of the incoming channel, whose senders the socket keeps, and a
-- change of the close channel, if its value has become true.
abbrev pub arrivals : Socket → List Arrival
arrivals s =
    map (λ item. incoming (some item)) s.incoming
    ++ (if s.loop.user_close.value then close_changed true true ∷ [] else [])

-- The loop has ended without asking for a new connection, and nobody has closed the socket.
record IsStuck (s : Socket) : Type 0 where
  ended : s.loop.phase ≡ ReadLoop.finished false
  empty : s.incoming ≡ []
  unclosed : s.loop.user_close.value ≡ false

-- A move other than `close`.
abbrev pub LeavesOpen : Move → Type 0
LeavesOpen (closes signal) = ⊥
LeavesOpen _ = Unit

IsStuck-deliver : (s : Socket) → IsStuck s → IsStuck (deliver (seen_by_loop s) s)
unfolding deliver
IsStuck-deliver s stuck = record {
  ended = stuck.ended;
  empty = rw (stuck.empty, drop_all s.loop.delivered) refl;
  unclosed = stuck.unclosed;
}

IsStuck-take_first :
    (items : List Item) (s : Socket) → s.incoming ≡ items → IsStuck s → IsStuck (take_first items s)
IsStuck-take_first [] s e stuck = stuck
IsStuck-take_first (item ∷ rest) s e stuck = absurd (ground (arith, e, stuck.empty))

IsStuck-reconnect :
    (ready : Bool) (disconnect user_close : Signal) (s : Socket)
    → ready ≡ false
    → IsStuck s
    → IsStuck (reconnect ready disconnect user_close s)
unfolding reconnect
IsStuck-reconnect true disconnect user_close s e stuck = absurd (ground (arith, e))
IsStuck-reconnect false disconnect user_close s e stuck = stuck

IsStuck-move : (m : Move) (s : Socket) → LeavesOpen m → IsStuck s → IsStuck (move m s)
unfolding move
IsStuck-move loop_task s leaves stuck =
    subst (λ c. IsStuck (deliver c s)) (sym (task-finished (seen_by_loop s) stuck.ended))
      (IsStuck-deliver s stuck)
IsStuck-move recv_takes s leaves stuck = IsStuck-take_first s.incoming s refl stuck
IsStuck-move (reconnected disconnect user_close) s leaves stuck =
    IsStuck-reconnect (s.loop.has_handle && asks_to_reconnect s.loop.phase) disconnect user_close s
      (rw stuck.ended (ground arith)) stuck
IsStuck-move (closes signal) s leaves stuck = absurd leaves
IsStuck-move _ s leaves stuck = record {
  ended = stuck.ended;
  empty = stuck.empty;
  unclosed = stuck.unclosed;
}

IsStuck-run :
    (moves : List Move) (s : Socket)
    → All (λ m. LeavesOpen m) moves
    → IsStuck s
    → IsStuck (run moves s)
unfolding run
IsStuck-run [] s leaves stuck = stuck
IsStuck-run (m ∷ moves) s (now, later) stuck =
    IsStuck-run moves (move m s) later (IsStuck-move m s now stuck)

deliver-IsStuck :
    (next : Channels) (s : Socket)
    → next.phase ≡ ReadLoop.finished false
    → next.delivered ≡ s.loop.delivered
    → next.user_close.value ≡ false
    → s.incoming ≡ []
    → IsStuck (deliver next s)
unfolding deliver
deliver-IsStuck next s ended same unclosed empty = record {
  ended = ended;
  empty = rw (empty, same, drop_all s.loop.delivered) refl;
  unclosed = unclosed;
}

IsStuck-close_frame :
    (s : Socket) (frame : Option ℕ) (rest : List Item)
    → s.loop.phase ≡ ReadLoop.selecting
    → s.loop.source ≡ ok (close frame) ∷ rest
    → s.incoming ≡ []
    → s.loop.user_close.value ≡ false
    → IsStuck (move loop_task s)
unfolding move
IsStuck-close_frame s frame rest selecting first empty unclosed =
    let (ended, same, user_close) = task-close_frame (seen_by_loop s) frame rest selecting first in
    deliver-IsStuck (ReadLoop.move ReadLoop.task (seen_by_loop s)) s ended same
      (ap (λ (c : Signal). c.value) user_close ∙ unclosed) empty

recv-stuck : (s : Socket) → IsStuck s → recv (arrivals s) ≡ none
unfolding recv
recv-stuck s stuck = rw (stuck.empty, stuck.unclosed) refl

recv-closed :
    (s : Socket) (signal : Signal)
    → s.incoming ≡ []
    → signal.value ≡ true
    → recv (arrivals (move (closes signal) s)) ≡ some (none, [])
unfolding recv move ReadLoop.move
recv-closed s signal empty closed = rw (empty, closed) refl

-- When the read loop takes a close frame of the server, with the incoming channel empty and the socket
-- not closed by the user, it ends and asks for no new connection; from then on `recv` waits, whatever
-- happens, until the user closes the socket, and only then returns that it is closed.
pub run-waits :
    (moves : List Move) (signal : Signal) (s : Socket) (frame : Option ℕ) (rest : List Item)
    → s.loop.phase ≡ ReadLoop.selecting
    → s.loop.source ≡ ok (close frame) ∷ rest
    → s.incoming ≡ []
    → s.loop.user_close.value ≡ false
    → All (λ m. LeavesOpen m) moves
    → signal.value ≡ true
    → let end = run (loop_task ∷ moves) s in
      (end.loop.phase ≡ ReadLoop.finished false)
      × (recv (arrivals end) ≡ none)
      × (recv (arrivals (move (closes signal) end)) ≡ some (none, []))
unfolding run
run-waits moves signal s frame rest selecting first empty unclosed leaves closed =
    let stuck =
      IsStuck-run moves (move loop_task s) leaves
        (IsStuck-close_frame s frame rest selecting first empty unclosed) in
    (
      stuck.ended,
      recv-stuck (run moves (move loop_task s)) stuck,
      recv-closed (run moves (move loop_task s)) signal stuck.empty closed,
    )
