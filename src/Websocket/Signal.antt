-- ===== src/Websocket/Signal.antt =====
-- A receiver's view of a tokio `watch` channel of a `Bool`, as the loops of
-- src/tasks/tokio_tungstenite_reconnect/ use it.
use fpd.Base.{Bool, true, false, not, ◌||◌}

-- Whether a change is unseen, whether the sender lives, and the value.
pub record Signal : Type 0 where
  pub changed : Bool
  pub alive : Bool
  pub value : Bool

-- `changed()` is ready: with `Ok` at an unseen change, with `Err` if the sender is gone.
abbrev pub is_ready : Signal → Bool
is_ready s = s.changed || not s.alive

-- `changed()` has returned.
abbrev pub seen : Signal → Signal
seen s = record s { changed = false }

-- `result.is_err() || *receiver.borrow()`, for the result of `changed()`
abbrev pub tells_to_stop : Signal → Bool
tells_to_stop s = not s.changed || s.value

-- A sender's `send_replace`, as the receiver sees it.
abbrev pub send_replace : Bool → Signal → Signal
send_replace b s = record s { changed = true; value = b }
