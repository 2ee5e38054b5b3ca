-- ===== src/Service/Outgoing.antt =====
-- The task of `connect` in src/tasks/service.rs that sends the outgoing messages.
pub mod Laws
use fpd.Base.{Bool, true, false, List, [], ◌∷◌, ◌++◌, ℕ}
use fpd.Websocket.{Message, binary}
use fpd.Service.{Host, ProxyMessage}

-- `serialize_msgpack`
module _ {H : Host} (serialize_msgpack : ProxyMessage H → List ℕ) where
  -- Where the task waits: at `select!`, or in `ws_clone.send`.
  pub data Phase : Type 0 where
    selecting : Phase
    sending : Message → Phase
    finished : Phase

  pub record Channels : Type 0 where
    pub phase : Phase
    pub queue : List (ProxyMessage H)
    -- What was given to the socket, in order, with whether it took it.
    pub given : List (Message × Bool)

  -- What happens: `select!` takes a message, or the shutdown, in any order; the send returns; or
  -- another task queues a message.
  pub data Move : Type 0 where
    take shutdown : Move
    sent : Bool → Move
    queued : ProxyMessage H → Move

  taken : List (ProxyMessage H) → Channels → Channels
  taken [] c = c
  taken (message ∷ rest) c = record c {
    phase = sending (binary (serialize_msgpack message));
    queue = rest;
  }

  -- A send that fails is logged, and the loop goes on.
  unfoldable pub move : Phase → Move → Channels → Channels
  unfolding taken
  move selecting take c = taken c.queue c
  move selecting shutdown c = record c { phase = finished }
  move (sending message) (sent success) c = record c {
    phase = selecting;
    given = c.given ++ ((message, success) ∷ []);
  }
  move phase (queued message) c = record c { queue = c.queue ++ (message ∷ []) }
  move _ _ c = c

  unfoldable pub run : List Move → Channels → Channels
  unfolding move
  run [] c = c
  run (m ∷ moves) c = run moves (move c.phase m c)
