-- ===== src/Websocket/Pipe/Refines.antt =====
-- The path of the outgoing messages is a pool from which each connection takes one message at a time.
use mathlib.Core.List.{append-nil, append_assoc}
use fpd.Base.{◌≡◌, refl, sym, ◌∙◌, ap, ◌⊎◌, inl, inr, List, [], ◌∷◌, ◌++◌, All, map, ℕ, zero, suc}
use fpd.Websocket.{Message}
use fpd.Websocket.WriteLoop
use fpd.Websocket.WriteLoop.Order.{held}
use fpd.Websocket.Keepalive.Writer
use fpd.Websocket.Keepalive.Writer.Laws
use fpd.Websocket.Keepalive.Writer.Laws.{pending, FailsAtEnd, pending-move}
use fpd.Websocket.Pipe.Pool.{Pool, Step, enqueue, deal, open_port, Steps, here, step}
use fpd.Websocket.Pipe.{
  Shared, Connection, Socket, Heard, Within, task, write_returns, close_returns, writer_move,
  loop_move, hand_on, loop_at, change_at, fresh, connect, Move, sends, no_senders, loop_task, hears,
  within, connected, move, run,
}
use fpd.Websocket.Pipe.Steps.{port_of, waiting_in, view, OneMayDeal, loop_at-deals}

abbrev pub IsValid : Socket → Type 0
IsValid s = All (λ (c : Connection). FailsAtEnd c.writer) s.connections

-- The messages that come in.
abbrev pub sent_by : Move → List Message
sent_by (sends message) = message ∷ []
sent_by _ = []

abbrev pub sent : List Move → List Message
sent [] = []
sent (m ∷ moves) = sent_by m ++ sent moves

abbrev pub Takes : Pool → List Message → Pool → Type 0
Takes before messages after = ((after ≡ before) × (messages ≡ [])) ⊎ Step before after messages

-- Only the loop gives messages to a writer.
sent_by-writer_move : (m : Within) → Laws.sent_by (writer_move m) ≡ []
sent_by-writer_move task = refl
sent_by-writer_move (write_returns success) = refl
sent_by-writer_move (close_returns success) = refl
sent_by-writer_move _ = refl

writer-keeps :
    (m : Within) (w : Writer.Channels)
    → FailsAtEnd w
    → (pending (Writer.move (writer_move m) w) ≡ pending w)
      × FailsAtEnd (Writer.move (writer_move m) w)
writer-keeps m w v =
    let (moved, ends) = pending-move (writer_move m) w v in
    (moved ∙ ap (λ l. pending w ++ l) (sent_by-writer_move m) ∙ append-nil (pending w), ends)

abbrev AreValid : List Connection → Type 0
AreValid cs = All (λ (c : Connection). FailsAtEnd c.writer) cs

within-keeps :
    (k : ℕ) (m : Within) (cs : List Connection)
    → AreValid cs
    → let after =
        change_at k (λ c. record c { writer = Writer.move (writer_move m) c.writer }) cs in
      (map port_of after ≡ map port_of cs) × AreValid after
unfolding change_at
within-keeps k m [] v = (refl, v)
within-keeps zero m (c ∷ cs) (v, vs) =
    let (same, ends) = writer-keeps m c.writer v in
    (ap (λ g. record { hand = held c.loop.phase; given = g } ∷ map port_of cs) same, (ends, vs))
within-keeps (suc k) m (c ∷ cs) (v, vs) =
    let (same, ends) = within-keeps k m cs vs in (ap (λ ps. port_of c ∷ ps) same, (v, ends))

heard-phase :
    (h : Heard) (c : WriteLoop.Channels) → (WriteLoop.move (loop_move h) c).phase ≡ c.phase
unfolding WriteLoop.move
heard-phase (Heard.disconnect_becomes signal) c = refl
heard-phase (Heard.close_becomes signal) c = refl
heard-phase Heard.handles_dropped c = refl

hears-keeps :
    (k : ℕ) (h : Heard) (cs : List Connection)
    → AreValid cs
    → let after = change_at k (λ c. record c { loop = WriteLoop.move (loop_move h) c.loop }) cs in
      (map port_of after ≡ map port_of cs) × AreValid after
unfolding change_at
hears-keeps k h [] v = (refl, v)
hears-keeps zero h (c ∷ cs) v = (
  ap (λ p. record { hand = held p; given = pending c.writer } ∷ map port_of cs)
      (heard-phase h c.loop),
  v,
)
hears-keeps (suc k) h (c ∷ cs) (v, vs) =
    let (same, ends) = hears-keeps k h cs vs in (ap (λ ps. port_of c ∷ ps) same, (v, ends))

loop_at-AreValid :
    (k : ℕ) (shared : Shared) (cs : List Connection)
    → AreValid cs
    → AreValid (loop_at k shared cs).1
unfolding loop_at hand_on
loop_at-AreValid k shared [] v = v
loop_at-AreValid zero shared (c ∷ cs) v = v
loop_at-AreValid (suc k) shared (c ∷ cs) (v, vs) = (v, loop_at-AreValid k shared cs vs)

-- The step of the pool.
by_loop :
    (s : Socket) (left : Shared) (cs : List Connection)
    → OneMayDeal
        (waiting_in s.shared)
        (waiting_in left)
        (map port_of s.connections)
        (map port_of cs)
    → Takes (view s) [] (view (record { shared = left; connections = cs }))
by_loop s left cs (inl (same, ports)) = inl (
  ap (λ w. record { waiting = w; ports = map port_of cs }) same
      ∙ ap (λ ps. record { waiting = waiting_in s.shared; ports = ps }) ports,
  refl,
)
by_loop s left cs (inr one) = inr (deal one)

with_ports :
    (s next : Socket)
    → next.shared ≡ s.shared
    → map port_of next.connections ≡ map port_of s.connections
    → Takes (view s) [] (view next)
with_ports s next same ports = inl (
  ap (λ sh. record { waiting = waiting_in sh; ports = map port_of next.connections }) same
      ∙ ap (λ ps. record { waiting = waiting_in s.shared; ports = ps }) ports,
  refl,
)

move-Takes :
    (m : Move) (s : Socket)
    → IsValid s
    → Takes (view s) (sent_by m) (view (move m s)) × IsValid (move m s)
unfolding move connect fresh
move-Takes (sends message) s v = (
  inr (enqueue message (sym (append_assoc s.shared.retry s.shared.outgoing (message ∷ []))) refl),
  v,
)
move-Takes no_senders s v = (inl (refl, refl), v)
move-Takes (loop_task k) s v = (
  by_loop s (loop_at k s.shared s.connections).0 (loop_at k s.shared s.connections).1
      (loop_at-deals k s.shared s.connections),
  loop_at-AreValid k s.shared s.connections v,
)
move-Takes (hears k h) s v =
    let (same, ends) = hears-keeps k h s.connections v in
    (with_ports s (move (hears k h) s) refl same, ends)
move-Takes (within k m) s v =
    let (same, ends) = within-keeps k m s.connections v in
    (with_ports s (move (within k m) s) refl same, ends)
move-Takes (connected ping_timeout disconnect close) s v =
    (inr (open_port refl refl), ((λ h. refl), v))

Takes-Steps :
    {before mid after : Pool} {now later : List Message}
    → Takes before now mid
    → Steps mid later after
    → Steps before (now ++ later) after
Takes-Steps (inl (same, silent)) rest = rw (silent, sym same) rest
Takes-Steps (inr one) rest = step one rest

-- The write path of the reconnecting socket refines a pool: any run of the write loops of all
-- connections, also while an old one still runs beside a new one, of the writers behind them, of the
-- clients and of new connections, from channels where no write has failed before its loop's end, is a
-- run of the pool in which the same messages come in. There each connection takes the first message
-- that waits, has one in hand at most, and gives it to its WebSocket's queue or puts it back before
-- the others, so that no message is lost on the way to a connection, or goes to two of them.
pub run-refines :
    (moves : List Move) (s : Socket) → IsValid s → Steps (view s) (sent moves) (view (run moves s))
unfolding run
run-refines [] s v = here
run-refines (m ∷ moves) s v =
    let (steps, next) = move-Takes m s v in Takes-Steps steps (run-refines moves (move m s) next)

pub run-IsValid : (moves : List Move) (s : Socket) → IsValid s → IsValid (run moves s)
unfolding run
run-IsValid [] s v = v
run-IsValid (m ∷ moves) s v = run-IsValid moves (move m s) (move-Takes m s v).1
