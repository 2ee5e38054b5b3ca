-- ===== src/Service/Outgoing/Laws.antt =====
-- No outgoing message of the service is lost, doubled or overtaken on its way to the socket.
use mathlib.Core.List.{append-nil, append_assoc}
use fpd.Base.{◌≡◌, refl, sym, ◌∙◌, ap, arith, Bool, List, [], ◌∷◌, ◌++◌, ℕ}
use fpd.Websocket.{Message, binary}
use fpd.Service.{Host, ProxyMessage}
use fpd.Service.Outgoing.{
  Phase, selecting, sending, Channels, Move, take, shutdown, sent, queued, taken, move, run,
}

abbrev firsts : List (Message × Bool) → List Message
firsts [] = []
firsts ((message, success) ∷ given) = message ∷ firsts given

firsts-append : (xs ys : List (Message × Bool)) → firsts (xs ++ ys) ≡ firsts xs ++ firsts ys
firsts-append [] ys = refl
firsts-append ((message, success) ∷ xs) ys = rw (firsts-append xs ys)

module _ {H : Host} (serialize_msgpack : ProxyMessage H → List ℕ) where
  abbrev pub encoded : List (ProxyMessage H) → List Message
  encoded [] = []
  encoded (message ∷ messages) = binary (serialize_msgpack message) ∷ encoded messages

  pub encoded-append :
      (xs ys : List (ProxyMessage H)) → encoded (xs ++ ys) ≡ encoded xs ++ encoded ys
  encoded-append [] ys = refl
  encoded-append (x ∷ xs) ys = rw (encoded-append xs ys)

  abbrev pub held : Phase serialize_msgpack → List Message
  held (sending message) = message ∷ []
  held _ = []

  -- What was given to the socket, what is being given, and what waits.
  abbrev pub outgoing : Channels serialize_msgpack → List Message
  outgoing c = firsts c.given ++ (held c.phase ++ encoded c.queue)

  abbrev pub queued_by : Move serialize_msgpack → List (ProxyMessage H)
  queued_by (queued message) = message ∷ []
  queued_by _ = []

  abbrev pub all_queued : List (Move serialize_msgpack) → List (ProxyMessage H)
  all_queued [] = []
  all_queued (m ∷ moves) = queued_by m ++ all_queued moves

  -- Messages that are queued come last.
  pub outgoing-queued :
      (c : Channels serialize_msgpack) (messages : List (ProxyMessage H))
      → outgoing (record c { queue = c.queue ++ messages }) ≡ outgoing c ++ encoded messages
  outgoing-queued c messages = rw encoded-append (simp append_assoc)

  outgoing-taken :
      (queue : List (ProxyMessage H)) (c : Channels serialize_msgpack)
      → c.queue ≡ queue
      → c.phase ≡ selecting
      → outgoing (taken serialize_msgpack queue c) ≡ outgoing c
  unfolding taken
  outgoing-taken [] c q e = refl
  outgoing-taken (message ∷ rest) c q e = ground arith

  pub outgoing-move :
      (p : Phase serialize_msgpack) (m : Move serialize_msgpack) (c : Channels serialize_msgpack)
      → c.phase ≡ p
      → outgoing (move serialize_msgpack p m c) ≡ outgoing c ++ encoded (queued_by m)
  unfolding move
  outgoing-move selecting take c e = rw append-nil (outgoing-taken c.queue c refl e)
  outgoing-move (sending message) (sent success) c e =
      rw (append-nil, firsts-append, e)
        (append_assoc (firsts c.given) (message ∷ []) (encoded c.queue))
  outgoing-move p (queued message) c e = outgoing-queued c (message ∷ [])
  outgoing-move selecting shutdown c e = rw append-nil (ground arith)
  outgoing-move _ _ c e = rw append-nil

  -- Whatever the order in which the task takes messages, its sends return, other tasks queue messages
  -- and the shutdown comes, the messages that were given to the socket, the one that is being given and
  -- those that wait are together, in this order, the encodings of those that were there before followed
  -- by those of the messages queued since.
  pub outgoing-run :
      (moves : List (Move serialize_msgpack)) (c : Channels serialize_msgpack)
      → outgoing (run serialize_msgpack moves c) ≡ outgoing c ++ encoded (all_queued moves)
  unfolding run
  outgoing-run [] c = rw append-nil
  outgoing-run (m ∷ moves) c =
      outgoing-run moves (move serialize_msgpack c.phase m c)
      ∙ ap (λ l. l ++ encoded (all_queued moves)) (outgoing-move c.phase m c refl)
      ∙ append_assoc (outgoing c) (encoded (queued_by m)) (encoded (all_queued moves))
      ∙ ap (λ l. outgoing c ++ l) (sym (encoded-append (queued_by m) (all_queued moves)))
