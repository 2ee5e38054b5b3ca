-- ===== src/Websocket/WriteLoop/Order.antt =====
-- No outgoing message is lost, doubled or overtaken by the write loop.
use mathlib.Core.List.{append-nil, append_assoc}
use mathlib.Core.Option.{get_or}
use mathlib.Core.Path.{◌≡⟨◌⟩◌, ◌∎}
use fpd.Base.{◌<◌, ◌≡◌, refl, ap, arith, Option, none, some, List, [], ◌∷◌, ◌++◌, length}
use fpd.Websocket.{Message}
use fpd.Websocket.WriteLoop.{
  Phase, selecting, forwarding, requeueing, finished, Sink, Channels, poll, Move, task, produced,
  move, run, forward, requeue, advance,
}

abbrev pub held : Phase → List Message
held (forwarding message) = message ∷ []
held (requeueing message) = message ∷ []
held _ = []

-- The messages that the loop has been given, oldest first.
abbrev pub pending : Channels → List Message
pending c = c.delivered ++ (held c.phase ++ (c.retry ++ c.outgoing))

abbrev pub sent_by : Move → List Message
sent_by (produced message) = message ∷ []
sent_by _ = []

abbrev pub sent : List Move → List Message
sent [] = []
sent (m ∷ moves) = sent_by m ++ sent moves

pending-forward :
    (sink : Sink) (message : Message) (c : Channels) {next : Channels}
    → c.phase ≡ forwarding message
    → forward sink message c ≡ some next
    → pending next ≡ pending c
unfolding forward
pending-forward sink message c e h =
    ground (arith, append_assoc c.delivered (message ∷ []) (c.retry ++ c.outgoing))

pub nil_of_length {ℓ} : {A : Type ℓ} (xs : List A) → length xs < 1 → xs ≡ []
nil_of_length [] h = refl
nil_of_length (x ∷ xs) h = absurd (omega arith)

pending-requeue :
    (message : Message) (c : Channels) {next : Channels}
    → c.phase ≡ requeueing message
    → requeue message c ≡ some next
    → pending next ≡ pending c
unfolding requeue
pending-requeue message c e h = ground (arith, nil_of_length c.retry)

pending-advance :
    (p : Phase) (c : Channels) {next : Channels}
    → c.phase ≡ p
    → advance p c ≡ some next
    → pending next ≡ pending c
unfolding advance
pending-advance selecting c e h = ground arith
pending-advance (forwarding message) c e h = pending-forward c.sink message c e h
pending-advance (requeueing message) c e h = pending-requeue message c e h
pending-advance finished c e h = cc

pending-poll : (c : Channels) {next : Channels} → poll c ≡ some next → pending next ≡ pending c
unfolding poll
pending-poll c h = pending-advance c.phase c refl h

pending-get_or :
    (c : Channels) (o : Option Channels)
    → ((next : Channels) → o ≡ some next → pending next ≡ pending c)
    → pending (get_or o c) ≡ pending c
pending-get_or c none h = refl
pending-get_or c (some next) h = h next refl

pending-move : (m : Move) (c : Channels) → pending (move m c) ≡ pending c ++ sent_by m
unfolding move
pending-move task c = rw append-nil (pending-get_or c (poll c) (λ next e. pending-poll c e))
pending-move (produced message) c = simp append_assoc
pending-move _ c = rw append-nil

-- Whatever the order of the loop's steps and of what the other tasks do, as long as this is the only
-- loop on its channels, the messages that the sink took, the one that
-- the loop holds, the retry queue and the outgoing queue are together, in this order, those that
-- were there before followed by those produced since: none is lost, doubled or overtaken.
pub pending-run :
    (moves : List Move) (c : Channels) → pending (run moves c) ≡ pending c ++ sent moves
unfolding run
pending-run [] c = rw append-nil
pending-run (m ∷ moves) c =
    pending (run moves (move m c))
    ≡⟨ pending-run moves (move m c) ⟩ pending (move m c) ++ sent moves
    ≡⟨ ap (λ l. l ++ sent moves) (pending-move m c) ⟩ (pending c ++ sent_by m) ++ sent moves
    ≡⟨ append_assoc (pending c) (sent_by m) (sent moves) ⟩ pending c ++ (sent_by m ++ sent moves) ∎
