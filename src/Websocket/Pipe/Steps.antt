-- ===== src/Websocket/Pipe/Steps.antt =====
-- A step of a write loop, as a step of the pool.
use mathlib.Core.List.{append-nil, append_assoc}
use fpd.Base.{
  ◌≡◌, refl, sym, ◌∙◌, ap, ◌⊎◌, inl, inr, List, [], ◌∷◌, ◌++◌, drop, length, drop-append, map, ℕ,
  zero, suc,
}
use fpd.Websocket.{Message}
use fpd.Websocket.WriteLoop
use fpd.Websocket.WriteLoop.Order.{held}
use fpd.Websocket.WriteLoop.Deal.{Handles, waits, takes, gives, puts_back, Handles-task}
use fpd.Websocket.Keepalive.Writer.Laws.{pending}
use fpd.Websocket.Pipe.Pool.{Port, Pool, Deal, take, give, put_back, OneDeals, this, another}
use fpd.Websocket.Pipe.{Shared, Connection, Socket, seeing, hand_on, left_by, loop_at}

abbrev pub port_of : Connection → Port
port_of c = record { hand = held c.loop.phase; given = pending c.writer }

abbrev pub waiting_in : Shared → List Message
waiting_in shared = shared.retry ++ shared.outgoing

abbrev pub view : Socket → Pool
view s = record { waiting = waiting_in s.shared; ports = map port_of s.connections }

-- What a connection was given, with messages that are handed on.
given-hand_on :
    (c : Connection) (next : WriteLoop.Channels) (more : List Message)
    → next.delivered ≡ c.loop.delivered ++ more
    → pending (hand_on next c).writer ≡ pending c.writer ++ more
unfolding hand_on
given-hand_on c next more h =
    ap
      (λ l.
        pending
          (record c.writer { outgoing = c.writer.outgoing ++ drop (length c.loop.delivered) l }))
      h
    ∙ ap (λ l. pending (record c.writer { outgoing = c.writer.outgoing ++ l }))
        (drop-append c.loop.delivered more)
    ∙ simp append_assoc

given-same :
    (c : Connection) (next : WriteLoop.Channels)
    → next.delivered ≡ c.loop.delivered
    → pending (hand_on next c).writer ≡ pending c.writer
given-same c next h =
    given-hand_on c next [] (h ∙ sym (append-nil c.loop.delivered)) ∙ append-nil (pending c.writer)

Port-eq : (p q : Port) → p.hand ≡ q.hand → p.given ≡ q.given → p ≡ q
Port-eq p q h g =
    ap (λ x. record { hand = x; given = p.given }) h
    ∙ ap (λ x. record { hand = q.hand; given = x }) g

-- A step of a loop is one of its connection, or leaves what waits and what the connection has.
abbrev Deals : (waiting left : List Message) → Port → Port → Type 0
Deals waiting left port after = ((left ≡ waiting) × (after ≡ port)) ⊎ Deal waiting port left after

hand_on-Deals :
    (shared : Shared) (c : Connection) (next : WriteLoop.Channels)
    → Handles (seeing shared c) next
    → Deals
        (waiting_in shared)
        (waiting_in (left_by next shared))
        (port_of c)
        (port_of (hand_on next c))
unfolding hand_on
hand_on-Deals shared c next (waits left in_hand same) =
    inl (left, Port-eq (port_of (hand_on next c)) (port_of c) in_hand (given-same c next same))
hand_on-Deals shared c next (takes message left free in_hand same) =
    inr (take message left free in_hand (given-same c next same))
hand_on-Deals shared c next (gives message has_room left in_hand free more) =
    inr (give message left in_hand free (given-hand_on c next (message ∷ []) more))
hand_on-Deals shared c next (puts_back message left in_hand free same) =
    inr (put_back message left in_hand free (given-same c next same))

abbrev pub OneMayDeal : (waiting left : List Message) → List Port → List Port → Type 0
OneMayDeal waiting left ports afters =
    ((left ≡ waiting) × (afters ≡ ports)) ⊎ OneDeals waiting left ports afters

this-may :
    {waiting left : List Message} {port after : Port} (ports : List Port)
    → Deals waiting left port after
    → OneMayDeal waiting left (port ∷ ports) (after ∷ ports)
this-may ports (inl (left, same)) = inl (left, ap (λ p. p ∷ ports) same)
this-may ports (inr one) = inr (this one)

another-may :
    {waiting left : List Message} {ports afters : List Port} (port : Port)
    → OneMayDeal waiting left ports afters
    → OneMayDeal waiting left (port ∷ ports) (port ∷ afters)
another-may port (inl (left, same)) = inl (left, ap (λ ps. port ∷ ps) same)
another-may port (inr one) = inr (another one)

pub loop_at-deals :
    (k : ℕ) (shared : Shared) (cs : List Connection)
    → OneMayDeal
        (waiting_in shared)
        (waiting_in (loop_at k shared cs).0)
        (map port_of cs)
        (map port_of (loop_at k shared cs).1)
unfolding loop_at
loop_at-deals k shared [] = inl (refl, refl)
loop_at-deals zero shared (c ∷ cs) = this-may (map port_of cs) (
    hand_on-Deals shared c (WriteLoop.move WriteLoop.task (seeing shared c))
      (Handles-task (seeing shared c)))
loop_at-deals (suc k) shared (c ∷ cs) = another-may (port_of c) (loop_at-deals k shared cs)
