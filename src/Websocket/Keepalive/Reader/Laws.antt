-- ===== src/Websocket/Keepalive/Reader/Laws.antt =====
-- What of the WebSocket's stream reaches the incoming channel.
use mathlib.Core.Option.{get_or}
use mathlib.Core.List.{append-nil, append_assoc}
use fpd.Base.{
  ◌≡◌, refl, sym, ◌∙◌, ap, arith, Bool, true, false, Option, none, some, List, [], ◌∷◌, ◌++◌,
}
use fpd.Base.{ok}
use fpd.Websocket.{ping, pong}
use fpd.Websocket.WriteLoop.{Sink}
use fpd.Websocket.Keepalive.Reader.{
  Item, Phase, selecting, forwarding, finished, Channels, select, forward, poll, Move, task,
  arrived, move, run,
}

abbrev visible_part : Item → List Item
visible_part (ok (ping payload)) = []
visible_part (ok (pong payload)) = []
visible_part item = item ∷ []

-- The items that are neither pings nor pongs.
abbrev pub visible : List Item → List Item
visible [] = []
visible (item ∷ items) = visible_part item ++ visible items

abbrev pub held : Phase → List Item
held (forwarding item) = item ∷ []
held _ = []

abbrev pub received : Channels → List Item
received c = c.delivered ++ (held c.phase ++ (c.dropped ++ visible c.source))

abbrev pub arrived_by : Move → List Item
arrived_by (arrived item) = item ∷ []
arrived_by _ = []

abbrev pub arrivals : List Move → List Item
arrivals [] = []
arrivals (m ∷ moves) = arrived_by m ++ arrivals moves

abbrev pub has_ended : Phase → Bool
has_ended finished = true
has_ended _ = false

-- Only the end of the loop drops an item.
abbrev pub DropsAtEnd : Channels → Type 0
DropsAtEnd c = has_ended c.phase ≡ false → c.dropped ≡ []

pub visible-append : (xs ys : List Item) → visible (xs ++ ys) ≡ visible xs ++ visible ys
visible-append [] ys = refl
visible-append (x ∷ xs) ys =
    rw (visible-append xs ys) (sym (append_assoc (visible_part x) (visible xs) (visible ys)))

abbrev Keeps : Channels → Channels → Type 0
Keeps c next = (received next ≡ received c) × DropsAtEnd next

module _ (c : Channels) {next : Channels} (d : DropsAtEnd c) where
  received-forward :
      (sink : Sink) (item : Item)
      → c.phase ≡ forwarding item
      → forward sink item c ≡ some next
      → Keeps c next
  unfolding forward
  received-forward sink item e h =
      ground (arith, append_assoc c.delivered (item ∷ []) (c.dropped ++ visible c.source))

  received-select :
      (source : List Item)
      → c.source ≡ source
      → c.phase ≡ selecting
      → select source c ≡ some next
      → Keeps c next
  unfolding select
  received-select [] s e h = ground arith
  received-select (ok m ∷ rest) s e h = ground arith
  received-select (item ∷ rest) s e h = ground arith

  received-poll : (p : Phase) → c.phase ≡ p → poll p c ≡ some next → Keeps c next
  unfolding poll
  received-poll selecting e h = received-select c.source refl e h
  received-poll (forwarding item) e h = received-forward c.sink item e h
  received-poll finished e h = cc

received-get_or :
    (c : Channels) (o : Option Channels)
    → DropsAtEnd c
    → ((next : Channels) → o ≡ some next → Keeps c next)
    → Keeps c (get_or o c)
received-get_or c none d h = (refl, d)
received-get_or c (some next) d h = h next refl

pub received-move :
    (m : Move) (c : Channels)
    → DropsAtEnd c
    → (received (move m c) ≡ received c ++ visible (arrived_by m)) × DropsAtEnd (move m c)
unfolding move
received-move task c d =
    rw append-nil
      (received-get_or c (poll c.phase c) d (λ next e. received-poll c d c.phase refl e))
received-move (arrived item) c d = (simp (append_assoc, visible-append), d)
received-move _ c d = rw append-nil (refl, d)

-- Whatever the order of the loop's steps and of what the other tasks do, the items that the
-- incoming channel took, the one that the loop holds, the one that ended it, and those still to come
-- that are neither pings nor pongs are together, in this order, those of this kind that were there
-- before followed by those that arrived since; and an item is dropped only at the end of the loop.
pub visible-run :
    (moves : List Move) (c : Channels)
    → DropsAtEnd c
    → (received (run moves c) ≡ received c ++ visible (arrivals moves)) × DropsAtEnd (run moves c)
unfolding run
visible-run [] c d = rw append-nil (refl, d)
visible-run (m ∷ moves) c d =
    let (first, kept) = received-move m c d in
    let (rest, kept_on) = visible-run moves (move m c) kept in
    (
      rest
          ∙ ap (λ l. l ++ visible (arrivals moves)) first
          ∙ append_assoc (received c) (visible (arrived_by m)) (visible (arrivals moves))
          ∙ ap (λ l. received c ++ l) (sym (visible-append (arrived_by m) (arrivals moves))),
      kept_on,
    )
