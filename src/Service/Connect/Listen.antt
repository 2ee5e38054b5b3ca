-- ===== src/Service/Connect/Listen.antt =====
-- Which messages the loop of `connect` hands on.
use fpd.Base.{
  ℕ, ◌≡◌, refl, sym, ◌∙◌, ap, Option, none, some, List, [], ◌∷◌, ◌++◌, Outcome, ok, err, string_eq,
}
use mathlib.Core.List.{append-nil, append_assoc}
use fpd.Websocket.{Message, binary, Request, Response}
use fpd.Websocket
use fpd.Service.{ServerMessage}
use fpd.Service.Connect.{Incoming, received, shutdown, Listening, listen, spawn_for, on_incoming}

-- The messages as items of the socket.
abbrev pub arriving : List Message → List Incoming
arriving [] = []
arriving (message ∷ messages) = received (some (ok message)) ∷ arriving messages

-- The messages that the items carry, of those that can be decoded.
module _ (deserialize_msgpack : List ℕ → Option ServerMessage) where
  abbrev some_of : Option ServerMessage → List ServerMessage
  some_of none = []
  some_of (some message) = message ∷ []

  abbrev pub decoded : List Message → List ServerMessage
  decoded [] = []
  decoded (binary bytes ∷ messages) = some_of (deserialize_msgpack bytes) ++ decoded messages
  decoded (_ ∷ messages) = decoded messages

  -- What ends the loop, and how.
  pub data Ends : Incoming → Outcome Websocket.Error (Unit {0}) → Type 0 where
    by_shutdown : Ends shutdown (ok tt)
    by_close : Ends (received none) (ok tt)
    by_error : (e : Websocket.Error) → Ends (received (some (err e))) (err e)

  spawn_for-more :
      (o : Option ServerMessage) (l : Listening)
      → (more : List ServerMessage) × ((spawn_for deserialize_msgpack o l).spawned
          ≡ l.spawned ++ more)
  spawn_for-more none l = ([], sym (append-nil l.spawned))
  spawn_for-more (some message) l = (message ∷ [], refl)

  on_incoming-more :
      (e : Incoming) (l : Listening)
      → (more : List ServerMessage) × ((on_incoming deserialize_msgpack e l).spawned
          ≡ l.spawned ++ more)
  on_incoming-more (received (some (ok (binary bytes)))) l =
      spawn_for-more (deserialize_msgpack bytes) l
  on_incoming-more (received (some (ok _))) l = ([], sym (append-nil l.spawned))
  on_incoming-more _ l = ([], sym (append-nil l.spawned))

  -- Of an item, the loop hands on some messages more.
  pub listen-more :
      (e : Incoming) (l : Listening)
      → (more : List ServerMessage) × ((listen deserialize_msgpack (e ∷ []) l).spawned
          ≡ l.spawned ++ more)
  unfolding listen
  listen-more e l = by_end l.ended
    where
      by_end :
          (o : Option (Outcome Websocket.Error (Unit {0})))
          → let next : Listening = elim o [
            | some r ↦ l
            | none ↦ on_incoming deserialize_msgpack e l
          ] in
            (more : List ServerMessage) × (next.spawned ≡ l.spawned ++ more)
      by_end (some r) = ([], sym (append-nil l.spawned))
      by_end none = on_incoming-more e l

  listen-ended :
      (events : List Incoming) (l : Listening) {r : Outcome Websocket.Error (Unit {0})}
      → l.ended ≡ some r
      → listen deserialize_msgpack events l ≡ l
  unfolding listen
  listen-ended [] l h = refl
  listen-ended (e ∷ events) l h = rw h refl

  listen-Ends :
      (e : Incoming) (rest : List Incoming) (before : List ServerMessage)
      {r : Outcome Websocket.Error (Unit {0})}
      → Ends e r
      → listen deserialize_msgpack (e ∷ rest) (record { spawned = before; ended = none })
        ≡ record { spawned = before; ended = some r }
  unfolding listen
  listen-Ends e rest before by_shutdown =
      listen-ended rest (record { spawned = before; ended = some (ok tt) }) refl
  listen-Ends e rest before by_close =
      listen-ended rest (record { spawned = before; ended = some (ok tt) }) refl
  listen-Ends e rest before (by_error x) =
      listen-ended rest (record { spawned = before; ended = some (err x) }) refl

  spawn_for-some_of :
      (o : Option ServerMessage) (before : List ServerMessage)
      → spawn_for deserialize_msgpack o (record { spawned = before; ended = none })
        ≡ record { spawned = before ++ some_of o; ended = none }
  spawn_for-some_of none before = rw append-nil
  spawn_for-some_of (some message) before = refl

  listen_from :
      (messages : List Message) (e : Incoming) (rest : List Incoming) (before : List ServerMessage)
      {r : Outcome Websocket.Error (Unit {0})}
      → Ends e r
      → listen deserialize_msgpack
          (arriving messages ++ e ∷ rest)
          (record { spawned = before; ended = none })
        ≡ record { spawned = before ++ decoded messages; ended = some r }
  unfolding listen
  listen_from [] e rest before h = rw append-nil (listen-Ends e rest before h)
  listen_from (binary bytes ∷ messages) e rest before {r} h =
      ap (listen deserialize_msgpack (arriving messages ++ e ∷ rest))
        (spawn_for-some_of (deserialize_msgpack bytes) before)
      ∙ listen_from messages e rest (before ++ some_of (deserialize_msgpack bytes)) {r = r} h
      ∙ ap (λ l. record { spawned = l; ended = some r })
          (append_assoc before (some_of (deserialize_msgpack bytes)) (decoded messages))
  listen_from (_ ∷ messages) e rest before h = listen_from messages e rest before h

  -- Until the socket closes or fails, or the shutdown comes, the loop spawns a handler for exactly the
  -- binary messages that can be decoded, in order, and passes over all others; then it ends, with the
  -- error if there was one, and nothing that comes later is handled.
  pub listen_lem :
      (messages : List Message) (e : Incoming) (rest : List Incoming)
      {r : Outcome Websocket.Error (Unit {0})}
      → Ends e r
      → listen deserialize_msgpack
          (arriving messages ++ e ∷ rest)
          (record { spawned = []; ended = none })
        ≡ record { spawned = decoded messages; ended = some r }
  listen_lem messages e rest h = listen_from messages e rest [] h
