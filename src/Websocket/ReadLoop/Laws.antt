-- ===== src/Websocket/ReadLoop/Laws.antt =====
-- The read loop hands on what arrives, in order, and when it asks for a new connection.
use mathlib.Core.Option.{get_or}
use mathlib.Core.List.{append-nil, append_assoc}
use mathlib.Core.Path.{◌≡⟨◌⟩◌, ◌∎}
use fpd.Base.{◌≡◌, refl, ap, arith, Bool, true, false, Option, none, some, List, [], ◌∷◌, ◌++◌}
use fpd.Websocket.Signal.{is_ready, tells_to_stop}
use fpd.Base.{ℕ, ok}
use fpd.Websocket.{close}
use fpd.Websocket.WriteLoop.{Sink, gone}
use fpd.Websocket.ReadLoop.{
  Item, Phase, selecting, forwarding, finished, Channels, select, forward, advance, poll, Move,
  task, arrived, move, run,
}

abbrev pub held : Phase → List Item
held (forwarding item) = item ∷ []
held _ = []

-- The items that the loop has been given, oldest first.
abbrev pub received : Channels → List Item
received c = c.delivered ++ (held c.phase ++ (c.dropped ++ c.source))

abbrev pub arrived_by : Move → List Item
arrived_by (arrived item) = item ∷ []
arrived_by _ = []

abbrev pub arrivals : List Move → List Item
arrivals [] = []
arrivals (m ∷ moves) = arrived_by m ++ arrivals moves

abbrev pub has_ended : Phase → Bool
has_ended (finished should_reconnect) = true
has_ended _ = false

-- Only the end of the loop drops an item.
abbrev pub DropsAtEnd : Channels → Type 0
DropsAtEnd c = has_ended c.phase ≡ false → c.dropped ≡ []

-- A step of the loop keeps the items and the invariant.
abbrev Keeps : Channels → Channels → Type 0
Keeps c next = (received next ≡ received c) × DropsAtEnd next

module _ (c : Channels) {next : Channels} (d : DropsAtEnd c) where
  received-forward :
      (sink : Sink) (item : Item)
      → c.phase ≡ forwarding item
      → forward sink item c ≡ some next
      → Keeps c next
  unfolding forward
  received-forward sink item e h =
      ground (arith, append_assoc c.delivered (item ∷ []) (c.dropped ++ c.source))

  received-select :
      (source : List Item)
      → c.source ≡ source
      → c.phase ≡ selecting
      → select source c ≡ some next
      → Keeps c next
  unfolding select
  received-select [] s e h = ground arith
  received-select (item ∷ rest) s e h = ground arith

  received-advance : (p : Phase) → c.phase ≡ p → advance p c ≡ some next → Keeps c next
  unfolding advance
  received-advance selecting e h = received-select c.source refl e h
  received-advance (forwarding item) e h = received-forward c.sink item e h
  received-advance (finished b) e h = cc

received-get_or :
    (c : Channels) (o : Option Channels)
    → DropsAtEnd c
    → ((next : Channels) → o ≡ some next → Keeps c next)
    → Keeps c (get_or o c)
received-get_or c none d h = (refl, d)
received-get_or c (some next) d h = h next refl

pub received-move :
    (m : Move) (c : Channels)
    → DropsAtEnd c
    → (received (move m c) ≡ received c ++ arrived_by m) × DropsAtEnd (move m c)
unfolding move
received-move task c d =
    rw append-nil (received-get_or c (poll c) d (λ next e. received-advance c d c.phase refl e))
received-move (arrived item) c d = (simp append_assoc, d)
received-move _ c d = rw append-nil (refl, d)

-- Whatever the order of the loop's steps and of what the other tasks do, the items that the
-- incoming channel took, the one that the loop holds, the one that ended it and those still to come
-- are together, in this order, those that were there before followed by those that arrived since;
-- and an item is dropped only at the end of the loop.
pub received-run :
    (moves : List Move) (c : Channels)
    → DropsAtEnd c
    → (received (run moves c) ≡ received c ++ arrivals moves) × DropsAtEnd (run moves c)
unfolding run
received-run [] c d = rw append-nil (refl, d)
received-run (m ∷ moves) c d =
    let (first, kept) = received-move m c d in
    let (rest, kept_on) = received-run moves (move m c) kept in
    (
      received (run moves (move m c))
          ≡⟨ rest ⟩ received (move m c) ++ arrivals moves
          ≡⟨ ap (λ l. l ++ arrivals moves) first ⟩ (received c ++ arrived_by m) ++ arrivals moves
          ≡⟨ append_assoc (received c) (arrived_by m) (arrivals moves) ⟩
            received c ++ (arrived_by m ++ arrivals moves) ∎,
      kept_on,
    )

-- Why the loop may end: the first two reasons ask for a new connection, the others do not.
pub data Reason (c : Channels) : Bool → Type 0 where
  source_gone : c.source ≡ [] → c.source_closed ≡ true → Reason c true
  write_loop_gone :
      c.source ≡ []
      → is_ready c.disconnect ≡ true
      → tells_to_stop c.disconnect ≡ true
      → Reason c true
  close_frame :
      (frame : Option ℕ) (rest : List Item) → c.source ≡ ok (close frame) ∷ rest → Reason c false
  sink_gone : (item : Item) → c.phase ≡ forwarding item → c.sink ≡ gone → Reason c false
  user_closed :
      c.source ≡ []
      → is_ready c.user_close ≡ true
      → tells_to_stop c.user_close ≡ true
      → Reason c false

Reason-select :
    (source : List Item) (c : Channels) {next : Channels} {b : Bool}
    → c.source ≡ source
    → c.phase ≡ selecting
    → select source c ≡ some next
    → next.phase ≡ finished b
    → Reason c b
unfolding select
Reason-select [] c {b = true} s e h f = grind (arith, source_gone, write_loop_gone)
Reason-select [] c {b = false} s e h f = grind (arith, user_closed)
Reason-select (ok (close frame) ∷ rest) c {b = true} s e h f = cc
Reason-select (ok (close frame) ∷ rest) c {b = false} s e h f = close_frame frame rest s
Reason-select (_ ∷ rest) c s e h f = ground arith

select-told :
    (source : List Item) (c : Channels) {next : Channels} {b : Bool}
    → c.has_handle ≡ true
    → c.phase ≡ selecting
    → select source c ≡ some next
    → next.phase ≡ finished b
    → (next.disconnect.changed ≡ true) × (next.disconnect.value ≡ true)
unfolding select
select-told [] c a e h f = ground arith
select-told (item ∷ rest) c a e h f = ground arith

Reason-advance :
    (c : Channels) {next : Channels} {b : Bool} (p : Phase)
    → c.has_handle ≡ true
    → c.phase ≡ p
    → advance p c ≡ some next
    → next.phase ≡ finished b
    → Reason c b × (next.disconnect.changed ≡ true) × (next.disconnect.value ≡ true)
unfolding advance
Reason-advance c selecting a e h f =
    let (changed, told) = select-told c.source c a e h f in
    (Reason-select c.source c refl e h f, changed, told)
Reason-advance c {b = true} (forwarding item) a e h f = ground arith
Reason-advance c {b = false} (forwarding item) a e h f =
    (sink_gone item e (ground arith), ground arith, ground arith)
Reason-advance c (finished _) a e h f = cc

-- While a handle of the socket is left, a step that ends the read loop asks for a new connection only if the connection has ended or the
-- write loop has stopped, and does not ask for one only at a close frame, when the incoming channel
-- is gone, or when the user closed the socket; in each case it tells the write loop to stop.
pub poll-Reason :
    (c : Channels) {next : Channels} {b : Bool}
    → c.has_handle ≡ true
    → poll c ≡ some next
    → next.phase ≡ finished b
    → Reason c b × (next.disconnect.changed ≡ true) × (next.disconnect.value ≡ true)
unfolding poll
poll-Reason c a h f = Reason-advance c c.phase a refl h f
