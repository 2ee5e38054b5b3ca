-- ===== src/Websocket/ReadLoop/Grows.antt =====
-- What the read loop has delivered stays delivered.
use mathlib.Core.Option.{get_or}
use mathlib.Core.List.{append-nil}
use fpd.Websocket.{close}
use fpd.Base.{
  ℕ, ok, false, ◌≡◌, refl, sym, ◌∙◌, arith, Bool, Option, none, some, List, [], ◌∷◌, ◌++◌,
}
use fpd.Websocket.WriteLoop.{Sink, room, full, gone}
use fpd.Websocket.ReadLoop.{
  Item, Phase, selecting, forwarding, finished, Channels, select, receive, forward, advance, poll,
  task, move,
}

abbrev pub Grows : Channels → Channels → Type 0
Grows c next = (more : List Item) × (next.delivered ≡ c.delivered ++ more)

Grows-same :
    (before after : List Item) → after ≡ before → (more : List Item) × (after ≡ before ++ more)
Grows-same before after h = ([], h ∙ sym (append-nil before))

module _ (c : Channels) {next : Channels} where
  Grows-forward : (sink : Sink) (item : Item) → forward sink item c ≡ some next → Grows c next
  unfolding forward
  Grows-forward room item h = (item ∷ [], ground arith)
  Grows-forward full item h = cc
  Grows-forward gone item h = Grows-same c.delivered next.delivered (ground arith)

  Grows-select : (source : List Item) → select source c ≡ some next → Grows c next
  unfolding select
  Grows-select [] h = Grows-same c.delivered next.delivered (ground arith)
  Grows-select (item ∷ rest) h = Grows-same c.delivered next.delivered (ground arith)

  Grows-advance : (p : Phase) → advance p c ≡ some next → Grows c next
  unfolding advance
  Grows-advance selecting h = Grows-select c.source h
  Grows-advance (forwarding item) h = Grows-forward c.sink item h
  Grows-advance (finished b) h = cc

Grows-get_or :
    (c : Channels) (o : Option Channels)
    → ((next : Channels) → o ≡ some next → Grows c next)
    → Grows c (get_or o c)
Grows-get_or c none h = ([], sym (append-nil c.delivered))
Grows-get_or c (some next) h = h next refl

pub Grows-task : (c : Channels) → Grows c (move task c)
unfolding move poll
Grows-task c = Grows-get_or c (advance c.phase c) (λ next. Grows-advance c c.phase)

-- An ended loop does nothing more.
pub task-finished : (c : Channels) {b : Bool} → c.phase ≡ finished b → move task c ≡ c
unfolding move poll advance
task-finished c e = rw e refl

-- A close frame of the server ends the loop, which does not ask for a new connection.
pub task-close_frame :
    (c : Channels) (frame : Option ℕ) (rest : List Item)
    → c.phase ≡ selecting
    → c.source ≡ ok (close frame) ∷ rest
    → ((move task c).phase ≡ finished false)
      × ((move task c).delivered ≡ c.delivered)
      × ((move task c).user_close ≡ c.user_close)
unfolding move poll advance select receive
task-close_frame c frame rest p s = rw (p, s) (refl, refl, refl)
