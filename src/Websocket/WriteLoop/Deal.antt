-- ===== src/Websocket/WriteLoop/Deal.antt =====
-- What a step of the write loop does with the messages.
use mathlib.Core.Option.{get_or}
use fpd.Base.{◌≡◌, refl, arith, Option, none, some, List, ◌∷◌, [], ◌++◌}
use fpd.Websocket.{Message}
use fpd.Websocket.WriteLoop.{
  Phase, selecting, forwarding, requeueing, finished, Sink, room, full, gone, Channels, forward,
  advance, poll, task, move, select, select_outgoing,
}
use fpd.Websocket.WriteLoop.Order.{held, nil_of_length}

-- The messages that no loop holds.
abbrev pub queue : Channels → List Message
queue c = c.retry ++ c.outgoing

-- A step leaves all as it is, takes the first message that waits, gives the one that it holds to the
-- sink, which has room, or puts it back before the others.
pub data Handles (c next : Channels) : Type 0 where
  waits :
      queue next ≡ queue c
      → held next.phase ≡ held c.phase
      → next.delivered ≡ c.delivered
      → Handles c next
  takes :
      (message : Message)
      → queue c ≡ message ∷ queue next
      → held c.phase ≡ []
      → held next.phase ≡ message ∷ []
      → next.delivered ≡ c.delivered
      → Handles c next
  gives :
      (message : Message)
      → c.sink ≡ room
      → queue next ≡ queue c
      → held c.phase ≡ message ∷ []
      → held next.phase ≡ []
      → next.delivered ≡ c.delivered ++ (message ∷ [])
      → Handles c next
  puts_back :
      (message : Message)
      → queue next ≡ message ∷ queue c
      → held c.phase ≡ message ∷ []
      → held next.phase ≡ []
      → next.delivered ≡ c.delivered
      → Handles c next

module _ (c : Channels) {next : Channels} where
  Handles-outgoing :
      (outgoing : List Message)
      → c.retry ≡ []
      → c.outgoing ≡ outgoing
      → c.phase ≡ selecting
      → select_outgoing outgoing c ≡ some next
      → Handles c next
  unfolding select_outgoing
  Handles-outgoing (message ∷ rest) r o e h =
      takes message (ground arith) (rw e refl) (ground arith) (ground arith)
  Handles-outgoing [] r o e h = waits (ground arith) (ground arith) (ground arith)

  Handles-select :
      (retry : List Message)
      → c.retry ≡ retry
      → c.phase ≡ selecting
      → select retry c ≡ some next
      → Handles c next
  unfolding select
  Handles-select (message ∷ rest) r e h =
      takes message (ground arith) (rw e refl) (ground arith) (ground arith)
  Handles-select [] r e h = Handles-outgoing c.outgoing r refl e h

  Handles-forward :
      (sink : Sink) (message : Message)
      → c.sink ≡ sink
      → c.phase ≡ forwarding message
      → forward sink message c ≡ some next
      → Handles c next
  unfolding forward
  Handles-forward room message s e h =
      gives message s (ground arith) (rw e refl) (ground arith) (ground arith)
  Handles-forward full message s e h = cc
  Handles-forward gone message s e h = waits (ground arith) (ground arith) (ground arith)

  Handles-advance : (p : Phase) → c.phase ≡ p → advance p c ≡ some next → Handles c next
  unfolding advance
  Handles-advance selecting e h = Handles-select c.retry refl e h
  Handles-advance (forwarding message) e h = Handles-forward c.sink message refl e h
  Handles-advance (requeueing message) e h =
      puts_back message (ground (arith, nil_of_length c.retry)) (rw e refl) (ground arith)
        (ground arith)
  Handles-advance finished e h = cc

pub Handles-task : (c : Channels) → Handles c (move task c)
unfolding move poll
Handles-task c = Handles-get_or (advance c.phase c) (λ next h. Handles-advance c c.phase refl h)
  where
    Handles-get_or :
        (o : Option Channels)
        → ((next : Channels) → o ≡ some next → Handles c next)
        → Handles c (get_or o c)
    Handles-get_or none h = waits refl refl refl
    Handles-get_or (some next) h = h next refl
