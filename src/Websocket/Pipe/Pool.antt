-- ===== src/Websocket/Pipe/Pool.antt =====
-- What the path of the outgoing messages promises: a pool from which each connection takes one message
-- at a time.
use fpd.Base.{◌≡◌, List, [], ◌∷◌, ◌++◌}
use fpd.Websocket.{Message}

-- What a connection has in hand, and what it was given.
pub record Port : Type 0 where
  pub hand : List Message
  pub given : List Message

-- The abstract view: the messages that wait, and the connections, newest first.
pub record Pool : Type 0 where
  pub waiting : List Message
  pub ports : List Port

-- What one connection does: it takes the first message that waits, when it has none in hand; it is
-- given the one in hand, for good; or it puts that one back before the others.
pub data Deal (waiting : List Message) (port : Port) (left : List Message) (after : Port)
    : Type 0 where
  take :
      (message : Message)
      → waiting ≡ message ∷ left
      → port.hand ≡ []
      → after.hand ≡ message ∷ []
      → after.given ≡ port.given
      → Deal waiting port left after
  give :
      (message : Message)
      → left ≡ waiting
      → port.hand ≡ message ∷ []
      → after.hand ≡ []
      → after.given ≡ port.given ++ (message ∷ [])
      → Deal waiting port left after
  put_back :
      (message : Message)
      → left ≡ message ∷ waiting
      → port.hand ≡ message ∷ []
      → after.hand ≡ []
      → after.given ≡ port.given
      → Deal waiting port left after

-- One of the connections does it, and the others are as they were.
pub data OneDeals (waiting left : List Message) : List Port → List Port → Type 0 where
  this :
      {port after : Port} {ports : List Port}
      → Deal waiting port left after
      → OneDeals waiting left (port ∷ ports) (after ∷ ports)
  another :
      {port : Port} {ports afters : List Port}
      → OneDeals waiting left ports afters
      → OneDeals waiting left (port ∷ ports) (port ∷ afters)

-- What may happen, with the messages that come in.
pub data Step (before after : Pool) : List Message → Type 0 where
  enqueue :
      (message : Message)
      → after.waiting ≡ before.waiting ++ (message ∷ [])
      → after.ports ≡ before.ports
      → Step before after (message ∷ [])
  deal : OneDeals before.waiting after.waiting before.ports after.ports → Step before after []
  open_port :
      after.waiting ≡ before.waiting
      → after.ports ≡ record { hand = []; given = [] } ∷ before.ports
      → Step before after []

pub data Steps : Pool → List Message → Pool → Type 0 where
  here : {q : Pool} → Steps q [] q
  step :
      {start mid end : Pool} {now later : List Message}
      → Step start mid now
      → Steps mid later end
      → Steps start (now ++ later) end
