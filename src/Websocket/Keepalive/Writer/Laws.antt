-- ===== src/Websocket/Keepalive/Writer/Laws.antt =====
-- Order of the frames that are written, and when the loop pings.
use mathlib.Core.Option
use mathlib.Core.Option.{get_or}
use mathlib.Core.List.{append-nil, append_assoc}
use fpd.Base.{
  ◌≤◌, ◌≡◌, refl, sym, ◌∙◌, ◌↔◌, ap, arith, Bool, true, false, Option, none, some, List, [], ◌∷◌,
  ◌++◌,
}
use fpd.Websocket.{Message}
use fpd.Websocket.Signal.{is_ready, seen}
use fpd.Websocket.Keepalive.Writer.{
  Frame, user, keepalive_ping, Phase, selecting, writing, locking, closing, finished, Channels,
  poll, wrote, closed_with, Move, task, write_returns, close_returns, produced, move, run,
}

abbrev message_of : Frame → List Message
message_of (user message) = message ∷ []
message_of keepalive_ping = []

-- The messages among the frames.
abbrev pub messages : List Frame → List Message
messages [] = []
messages (frame ∷ frames) = message_of frame ++ messages frames

abbrev pub held : Phase → List Message
held (writing frame) = message_of frame
held _ = []

abbrev pub pending : Channels → List Message
pending c = messages c.written ++ (held c.phase ++ (messages c.failed ++ c.outgoing))

abbrev pub sent_by : Move → List Message
sent_by (produced message) = message ∷ []
sent_by _ = []

abbrev pub sent : List Move → List Message
sent [] = []
sent (m ∷ moves) = sent_by m ++ sent moves

-- A frame fails only at the end of the loop.
abbrev pub has_ended : Phase → Bool
has_ended selecting = false
has_ended (writing frame) = false
has_ended _ = true

abbrev pub FailsAtEnd : Channels → Type 0
FailsAtEnd c = has_ended c.phase ≡ false → c.failed ≡ []

messages-append : (xs ys : List Frame) → messages (xs ++ ys) ≡ messages xs ++ messages ys
messages-append [] ys = refl
messages-append (x ∷ xs) ys =
    rw (messages-append xs ys) (sym (append_assoc (message_of x) (messages xs) (messages ys)))

abbrev Keeps : Channels → Channels → Type 0
Keeps c next = (pending next ≡ pending c) × FailsAtEnd next

module _ (c : Channels) (d : FailsAtEnd c) where
  pending-wrote : (p : Phase) (success : Bool) → c.phase ≡ p → Keeps c (wrote p success c)
  unfolding wrote
  pending-wrote selecting success e = (refl, d)
  pending-wrote (writing frame) true e =
      rw (messages-append, append-nil, e, d (rw e))
        (append_assoc (messages c.written) (message_of frame) c.outgoing, λ _. refl)
  pending-wrote (writing frame) false e = rw e (rw (d (rw e)) (rw append-nil refl), λ h. cc)
  pending-wrote _ success e = (refl, d)

  pending-closed : (p : Phase) (success : Bool) → c.phase ≡ p → Keeps c (closed_with p success c)
  unfolding closed_with
  pending-closed closing success e = (rw e refl, λ h. cc)
  pending-closed _ success e = (refl, d)

  pending-poll : (p : Phase) {next : Channels} → c.phase ≡ p → poll p c ≡ some next → Keeps c next
  unfolding poll
  pending-poll selecting e h = ground arith
  pending-poll (writing frame) e h = cc
  pending-poll locking e h = (ground arith, λ f. ground arith)
  pending-poll closing e h = cc
  pending-poll finished e h = cc

pending-get_or :
    (c : Channels) (o : Option Channels)
    → FailsAtEnd c
    → ((next : Channels) → o ≡ some next → Keeps c next)
    → Keeps c (get_or o c)
pending-get_or c none d h = (refl, d)
pending-get_or c (some next) d h = h next refl

pub pending-move :
    (m : Move) (c : Channels)
    → FailsAtEnd c
    → (pending (move m c) ≡ pending c ++ sent_by m) × FailsAtEnd (move m c)
unfolding move
pending-move task c d =
    rw append-nil (pending-get_or c (poll c.phase c) d (λ next e. pending-poll c d c.phase refl e))
pending-move (write_returns success) c d = rw append-nil (pending-wrote c d c.phase success refl)
pending-move (close_returns success) c d = rw append-nil (pending-closed c d c.phase success refl)
pending-move (produced message) c d = (simp append_assoc, d)
pending-move _ c d = rw append-nil (refl, d)

-- Whatever the order of the loop's steps and of what the other tasks do, the messages among the
-- frames that the WebSocket took, the one being written, the one at which writing failed and those
-- still queued are together, in this order, those that were there before followed by those produced
-- since; and writing fails only at the end of the loop.
pub frames-run :
    (moves : List Move) (c : Channels)
    → FailsAtEnd c
    → (pending (run moves c) ≡ pending c ++ sent moves) × FailsAtEnd (run moves c)
unfolding run
frames-run [] c d = rw append-nil (refl, d)
frames-run (m ∷ moves) c d =
    let (first, kept) = pending-move m c d in
    let (rest, kept_on) = frames-run moves (move m c) kept in
    (
      rest ∙ ap (λ l. l ++ sent moves) first ∙ append_assoc (pending c) (sent_by m) (sent moves),
      kept_on,
    )

-- A ping is begun exactly when the loop is not told to stop, no message is queued and
-- `ping_timeout` has passed since the last frame.
pub poll-ping :
    (c : Channels)
    → c.phase ≡ selecting
    → (Option.map (λ (n : Channels). n.phase) (poll c.phase c) ≡ some (writing keepalive_ping)) ↔ (
        (is_ready c.disconnect ≡ false)
        × (c.outgoing ≡ [])
        × (c.outgoing_closed ≡ false)
        × (c.ping_timeout ≤ c.waited))
unfolding poll
poll-ping c e = (λ h. ground arith, λ h. ground arith)

-- The loop has ended after writing these frames.
abbrev pub HasStopped : List Frame → Channels → Type 0
HasStopped frames c = (c.written ≡ frames) × (has_ended c.phase ≡ true)

HasStopped-wrote :
    (p : Phase) (success : Bool) (c : Channels) (frames : List Frame)
    → c.phase ≡ p
    → HasStopped frames c
    → HasStopped frames (wrote p success c)
unfolding wrote
HasStopped-wrote (writing frame) success c frames e h = absurd (ground (arith, e, h.1))
HasStopped-wrote _ success c frames e h = h

HasStopped-closed :
    (p : Phase) (success : Bool) (c : Channels) (frames : List Frame)
    → HasStopped frames c
    → HasStopped frames (closed_with p success c)
unfolding closed_with
HasStopped-closed closing success c frames h = (h.0, refl)
HasStopped-closed _ success c frames h = h

HasStopped-poll :
    (p : Phase) (c : Channels) (frames : List Frame)
    → c.phase ≡ p
    → HasStopped frames c
    → HasStopped frames (get_or (poll p c) c)
unfolding poll
HasStopped-poll selecting c frames e h = absurd (ground (arith, e, h.1))
HasStopped-poll locking c frames e h = (h.0, refl)
HasStopped-poll _ c frames e h = h

HasStopped-move :
    (m : Move) (c : Channels) (frames : List Frame)
    → HasStopped frames c
    → HasStopped frames (move m c)
unfolding move
HasStopped-move task c frames h = HasStopped-poll c.phase c frames refl h
HasStopped-move (write_returns success) c frames h =
    HasStopped-wrote c.phase success c frames refl h
HasStopped-move (close_returns success) c frames h = HasStopped-closed c.phase success c frames h
HasStopped-move _ c frames h = h

HasStopped-run :
    (moves : List Move) (c : Channels) (frames : List Frame)
    → HasStopped frames c
    → HasStopped frames (run moves c)
unfolding run
HasStopped-run [] c frames h = h
HasStopped-run (m ∷ moves) c frames h =
    HasStopped-run moves (move m c) frames (HasStopped-move m c frames h)

disconnected-task :
    (c : Channels)
    → c.phase ≡ selecting
    → is_ready c.disconnect ≡ true
    → move task c ≡ record c { phase = locking; disconnect = seen c.disconnect }
unfolding move poll
disconnected-task c e h = ground arith

-- A disconnect that the loop sees comes before every queued message: whatever happens after it,
-- nothing more is written and the loop has ended; and once the task has the lock, it has told its
-- clones to stop, and it ends when `close` returns, also with an error.
pub run-disconnected :
    (moves : List Move) (success : Bool) (c : Channels)
    → c.phase ≡ selecting
    → is_ready c.disconnect ≡ true
    → HasStopped c.written (run (task ∷ moves) c)
      × (let told = run (task ∷ task ∷ []) c in
          (told.disconnect.value ≡ true)
          × (told.disconnect.changed ≡ true)
          × (told.outgoing ≡ c.outgoing)
          × ((move (close_returns success) told).phase ≡ finished)
          × ((move (close_returns success) told).closed ≡ some success))
unfolding run move poll closed_with
run-disconnected moves success c e h =
    let stops = disconnected-task c e h in
    (
      HasStopped-run moves (move task c) c.written (rw stops (refl, refl)),
      rw (e, h) (refl, refl, refl, refl, refl),
    )
