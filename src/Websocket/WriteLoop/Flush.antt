-- ===== src/Websocket/WriteLoop/Flush.antt =====
-- A closed socket still sends what is queued.
use mathlib.Core.List.{append-nil, append_assoc}
use fpd.Base.{◌≡◌, ◌∙◌, arith, true, false, List, [], ◌∷◌, ◌++◌}
use fpd.Websocket.{Message}
use fpd.Websocket.Signal.{Signal, is_ready}
use fpd.Websocket.WriteLoop.{Channels, selecting, finished, room, Move, task, sink_becomes, run}

-- Between two messages, with room in the sink and nothing to retry.
abbrev pub idle_with : List Message → List Message → Signal → Signal → Channels
idle_with queued delivered disconnect close = record {
  phase = selecting;
  retry = [];
  outgoing = queued;
  outgoing_closed = false;
  sink = room;
  delivered = delivered;
  disconnect = disconnect;
  close = close;
  has_handle = true;
}

-- For each message two steps, to take it and to hand it on, after which the keepalive takes it from the
-- sink; and one step to stop.
abbrev pub polls : List Message → List Move
polls [] = task ∷ []
polls (_ ∷ messages) = task ∷ task ∷ sink_becomes room ∷ polls messages

-- When `close` has been called and a handle of the socket is left, a loop between two messages, with
-- nothing to retry, room in the sink and no disconnect in sight, first hands on every queued message,
-- in order, if the keepalive takes each from the sink before the next, and then ends, and tells the
-- read loop to stop.
pub run-polls :
    (queued delivered : List Message) (disconnect close : Signal)
    → is_ready disconnect ≡ false
    → close.changed ≡ true
    → close.value ≡ true
    → let end = run (polls queued) (idle_with queued delivered disconnect close) in
      (end.phase ≡ finished)
      × (end.outgoing ≡ [])
      × (end.delivered ≡ delivered ++ queued)
      × (end.disconnect.value ≡ true)
unfolding run
run-polls [] delivered disconnect close quiet changed closed = rw append-nil (ground arith)
run-polls (m ∷ queued) delivered disconnect close quiet changed closed =
    let (ended, empty, handed_on, told) =
      run-polls queued (delivered ++ (m ∷ [])) disconnect close quiet changed closed in
    (ended, empty, handed_on ∙ append_assoc delivered (m ∷ []) queued, told)
