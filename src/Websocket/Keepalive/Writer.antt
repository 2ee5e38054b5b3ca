-- ===== src/Websocket/Keepalive/Writer.antt =====
-- `spawn_write_loop` of src/tasks/tokio_tungstenite_reconnect/websocket_keepalive.rs.
pub mod Laws
use mathlib.Core.Option.{get_or}
use fpd.Base.{
  ℕ, ◌+◌, Bool, true, false, Option, none, some, List, [], ◌∷◌, ◌++◌, leb, if◌then◌else◌,
}
use fpd.Websocket.{Message}
use fpd.Websocket.Signal.{Signal, is_ready, seen, send_replace}

-- What is written to the WebSocket: a message of the outgoing channel, or the loop's own
-- `Ping(b"ping")`.
pub data Frame : Type 0 where
  user : Message → Frame
  keepalive_ping : Frame

-- Where the task waits: at `select_biased!`, in `write_ws.send`, and after the loop for the lock of the
-- disconnect channel and in `write_ws.close`.
pub data Phase : Type 0 where
  selecting : Phase
  writing : Frame → Phase
  locking : Phase
  closing : Phase
  finished : Phase

pub record Channels : Type 0 where
  pub phase : Phase
  pub ping_timeout : ℕ
  -- The time since `select_biased!` was entered.
  pub waited : ℕ
  pub outgoing : List Message
  pub outgoing_closed : Bool
  -- What the WebSocket took, in order, and the frame at which writing failed.
  pub written : List Frame
  pub failed : List Frame
  pub disconnect : Signal
  -- Whether `close` succeeded, once it has returned; an error is only logged.
  pub closed : Option Bool

-- The loop has ended.
abbrev finish : Channels → Channels
finish c = record c { phase = locking }

-- The lock is held.
abbrev tell : Channels → Channels
tell c = record c { phase = closing; disconnect = send_replace true c.disconnect }

-- Each round has a new `sleep`.
abbrev enter : Channels → Channels
enter c = record c { phase = selecting; waited = 0 }

select_outgoing : List Message → Channels → Option Channels
select_outgoing (message ∷ rest) c =
    some (record c { outgoing = rest; phase = writing (user message) })
select_outgoing [] c =
    if c.outgoing_closed
    then some (finish c)
    else if leb c.ping_timeout c.waited
    then some (record c { phase = writing keepalive_ping })
    else none

select : Channels → Option Channels
unfolding select_outgoing
select c =
    if is_ready c.disconnect
    then some (finish (record c { disconnect = seen c.disconnect }))
    else select_outgoing c.outgoing c

unfoldable pub poll : Phase → Channels → Option Channels
unfolding select
poll selecting c = select c
poll locking c = some (tell c)
poll _ c = none

-- `write_ws.send` has returned.
unfoldable pub wrote : Phase → Bool → Channels → Channels
wrote (writing frame) true c = enter (record c { written = c.written ++ (frame ∷ []) })
wrote (writing frame) false c = finish (record c { failed = frame ∷ [] })
wrote _ success c = c

-- `write_ws.close` has returned.
unfoldable pub closed_with : Phase → Bool → Channels → Channels
closed_with closing success c = record c { phase = finished; closed = some success }
closed_with _ success c = c

pub data Move : Type 0 where
  task : Move
  write_returns close_returns : Bool → Move
  passes : ℕ → Move
  produced : Message → Move
  producers_gone : Move
  disconnect_becomes : Signal → Move

unfoldable pub move : Move → Channels → Channels
unfolding poll wrote closed_with
move task c = get_or (poll c.phase c) c
move (write_returns success) c = wrote c.phase success c
move (close_returns success) c = closed_with c.phase success c
move (passes time) c = record c { waited = c.waited + time }
move (produced message) c = record c { outgoing = c.outgoing ++ (message ∷ []) }
move producers_gone c = record c { outgoing_closed = true }
move (disconnect_becomes signal) c = record c { disconnect = signal }

unfoldable pub run : List Move → Channels → Channels
unfolding move
run [] c = c
run (m ∷ moves) c = run moves (move m c)
