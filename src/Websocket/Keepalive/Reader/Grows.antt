-- ===== src/Websocket/Keepalive/Reader/Grows.antt =====
-- What the keepalive has delivered stays delivered.
use mathlib.Core.Option.{get_or}
use mathlib.Core.List.{append-nil}
use fpd.Base.{◌≡◌, refl, sym, ◌∙◌, arith, Option, none, some, List, [], ◌∷◌, ◌++◌}
use fpd.Websocket.WriteLoop.{Sink, room, full, gone}
use fpd.Websocket.Keepalive.Reader.{
  Item, Phase, selecting, forwarding, finished, Channels, select, forward, poll, task, move,
}

abbrev pub Grows : Channels → Channels → Type 0
Grows c next = (more : List Item) × (next.delivered ≡ c.delivered ++ more)

Grows-same :
    (before after : List Item) → after ≡ before → (more : List Item) × (after ≡ before ++ more)
Grows-same before after h = ([], h ∙ sym (append-nil before))

module _ (c : Channels) {next : Channels} where
  Grows-forward : (sink : Sink) (item : Item) → forward sink item c ≡ some next → Grows c next
  unfolding forward
  Grows-forward room item h = (item ∷ [], ground arith)
  Grows-forward full item h = cc
  Grows-forward gone item h = Grows-same c.delivered next.delivered (ground arith)

  Grows-select : (source : List Item) → select source c ≡ some next → Grows c next
  unfolding select
  Grows-select [] h = Grows-same c.delivered next.delivered (ground arith)
  Grows-select (item ∷ rest) h = Grows-same c.delivered next.delivered (ground arith)

  Grows-poll : (p : Phase) → poll p c ≡ some next → Grows c next
  unfolding poll
  Grows-poll selecting h = Grows-select c.source h
  Grows-poll (forwarding item) h = Grows-forward c.sink item h
  Grows-poll finished h = cc

Grows-get_or :
    (c : Channels) (o : Option Channels)
    → ((next : Channels) → o ≡ some next → Grows c next)
    → Grows c (get_or o c)
Grows-get_or c none h = ([], sym (append-nil c.delivered))
Grows-get_or c (some next) h = h next refl

pub Grows-task : (c : Channels) → Grows c (move task c)
unfolding move
Grows-task c = Grows-get_or c (poll c.phase c) (λ next. Grows-poll c c.phase)
