-- ===== src/Websocket/Keepalive.antt =====
-- The handle of `WebSocketKeepAlive` in
-- src/tasks/tokio_tungstenite_reconnect/websocket_keepalive.rs; its two tasks are the children.
pub mod Writer
pub mod Reader
use fpd.Base.{ℕ, String, Bool, true, false, not, Option, none, some, List, [], ◌∷◌, if◌then◌else◌}
use fpd.Base.{Outcome, ok, err}
use fpd.Websocket.{Message, Error, connection_closed, from_secs}

-- What the clones of a handle share: the disconnect value, the time without a message after which a
-- ping is sent.
pub record Handle : Type 0 where
  pub ping_timeout : ℕ
  pub disconnected : Bool

unfoldable pub new_with_ping_timeout : ℕ → Handle
new_with_ping_timeout ping_timeout = record { ping_timeout = ping_timeout; disconnected = false }

unfoldable pub new : Handle
unfolding new_with_ping_timeout
new = new_with_ping_timeout (from_secs 45)

unfoldable pub is_connected : Handle → Bool
is_connected h = not h.disconnected

unfoldable pub close : Handle → Handle
close h = record h { disconnected = true }

-- How the wait in `send` ends: the disconnect value changes, or the outgoing channel takes the
-- message, or is closed.
pub data SendWait : Type 0 where
  disconnect_changed taken channel_closed : SendWait

unfoldable pub send : Handle → SendWait → Outcome Error (Unit {0})
send h wait = if h.disconnected then err connection_closed else elim wait [
  | disconnect_changed ↦ err connection_closed
  | taken ↦ ok tt
  | channel_closed ↦ err connection_closed
]

-- `recv` of the items that the incoming channel holds: the next, or, if it is empty and its senders
-- are gone, that the WebSocket is closed. The outer `none`: it waits.
unfoldable pub recv :
    List (Outcome Error Message)
    → (senders_gone : Bool) → Option (Option (Outcome Error Message) × List (Outcome Error Message))
recv (item ∷ rest) senders_gone = some (some item, rest)
recv [] senders_gone = if senders_gone then some (none, []) else none
