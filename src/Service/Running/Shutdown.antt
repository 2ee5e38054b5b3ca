-- ===== src/Service/Running/Shutdown.antt =====
-- What the shutdown does not reach.
use mathlib.Core.Path.{subst}
use fpd.Base.{◌≡◌, refl, sym, ◌∙◌, ap, ℕ, true, false, Option, none, some, List, ◌∷◌, All, ok}
use fpd.Websocket.{Message}
use fpd.Service.{Host, ServerMessage, ProxyMessage}
use fpd.Service.StatusCheck.{Floats}
use fpd.Service.Connect.{Incoming, received}
use fpd.Service.Running.{
  Daemon, listens_may, listen_branch, subscribe_anew, Move, listens, resumes, if_ready, act, move,
  run,
}
use fpd.Service.Running.Deaf.{IsQuiet, IsDeaf, listen-message, move-act, IsDeaf-run}

module _ (H : Host) (F : Floats) (serialize_msgpack : ProxyMessage H → List ℕ)
    (deserialize_msgpack : List ℕ → Option ServerMessage) where
  abbrev State : Type 0
  State = Daemon H F serialize_msgpack deserialize_msgpack

  abbrev Step : Type 0
  Step = Move H F serialize_msgpack deserialize_msgpack

  -- A branch on an item that the loop takes at its `select!`.
  move-listens :
      (e : Incoming) (d : State)
      → d.listening.ended ≡ none
      → d.exited ≡ false
      → d.handling ≡ false
      → listens_may H F serialize_msgpack deserialize_msgpack d.listening_told e ≡ true
      → move H F serialize_msgpack deserialize_msgpack (listens e) d
        ≡ listen_branch H F serialize_msgpack deserialize_msgpack e d
  unfolding act if_ready
  move-listens e d runs stays selecting may =
      move-act H F serialize_msgpack deserialize_msgpack (listens e) d (rw (stays, runs) refl)
      ∙ rw (selecting, may) refl

  move-resumes :
      (d : State)
      → d.listening.ended ≡ none
      → d.exited ≡ false
      → d.handling ≡ true
      → move H F serialize_msgpack deserialize_msgpack resumes d
        ≡ subscribe_anew H F serialize_msgpack deserialize_msgpack d
  unfolding act if_ready
  move-resumes d runs stays handles =
      move-act H F serialize_msgpack deserialize_msgpack resumes d (rw (stays, runs) refl)
      ∙ rw handles refl

  -- A shutdown can be lost: if the listening loop takes a message at its `select!`, also while the
  -- shutdown waits there, and comes back to it, then the loop and the process go on, whatever the
  -- other loops do, until Ctrl-C is pressed again or the socket ends or fails.
  pub run-deaf :
      (message : Message) (moves : List Step) (d : State)
      → d.listening.ended ≡ none
      → d.exited ≡ false
      → d.handling ≡ false
      → All (IsQuiet H F serialize_msgpack deserialize_msgpack) moves
      → let end =
          run H F serialize_msgpack deserialize_msgpack
            (listens (received (some (ok message))) ∷ resumes ∷ moves)
            d in
        (end.listening.ended ≡ none) × (end.exited ≡ false) × (end.listening_told ≡ false)
  unfolding run
  run-deaf message moves d runs stays selecting quiet =
      let item = received (some (ok message)) in
      let taken : State = listen_branch H F serialize_msgpack deserialize_msgpack item d in
      let back : State = subscribe_anew H F serialize_msgpack deserialize_msgpack taken in
      let still =
        listen-message H F serialize_msgpack deserialize_msgpack message d.listening runs in
      let two : move H F serialize_msgpack deserialize_msgpack resumes
            (move H F serialize_msgpack deserialize_msgpack (listens item) d)
          ≡ back =
        ap (move H F serialize_msgpack deserialize_msgpack resumes)
          (move-listens item d runs stays selecting refl)
        ∙ move-resumes taken still stays refl in
      let deaf : IsDeaf H F serialize_msgpack deserialize_msgpack back = record {
        runs = still;
        stays = stays;
        untold = refl;
      } in
      let last =
        IsDeaf-run H F serialize_msgpack deserialize_msgpack moves
          (move H F serialize_msgpack deserialize_msgpack resumes
            (move H F serialize_msgpack deserialize_msgpack (listens item) d))
          quiet (subst (IsDeaf H F serialize_msgpack deserialize_msgpack) (sym two) deaf) in
      (last.runs, last.stays, last.untold)
