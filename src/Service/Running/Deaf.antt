-- ===== src/Service/Running/Deaf.antt =====
-- Where the listening loop runs and no shutdown waits at it, it goes on until there is another.
use fpd.Base.{
  ◌≡◌, refl, ap, arith, ℕ, Bool, not, ◌&&◌, true, false, Option, none, some, List, [], ◌∷◌, All,
  Outcome, ok, err, panicked, if◌then◌else◌,
}
use fpd.Websocket.{Message}
use fpd.Service.{Error, Host, ServerMessage, ProxyMessage}
use fpd.Service.StatusCheck.{Floats}
use fpd.Service.Tasks
use fpd.Service.Handle.{handle_message}
use fpd.Service.Tasks.{Loop, take_at}
use fpd.Service.Connect
use fpd.Service.Connect.{Incoming, received, Listening, listen}
use fpd.Service.Running.{
  Daemon, checks_may, sends_may, send_branch, listen_branch, subscribe_anew, after_checks,
  has_ended, ended, end_handler, Move, checks, sends, listens, resumes, handled, interrupt, act,
  is_over, move, run,
}
use fpd.Service.Running.Keeps.{if_ready-keeps, run-keeps_if}

module _ (H : Host) (F : Floats) (serialize_msgpack : ProxyMessage H → List ℕ)
    (deserialize_msgpack : List ℕ → Option ServerMessage) where
  abbrev State : Type 0
  State = Daemon H F serialize_msgpack deserialize_msgpack

  abbrev Step : Type 0
  Step = Move H F serialize_msgpack deserialize_msgpack

  -- No Ctrl-C, and no end or error of the socket.
  abbrev pub IsQuiet : Step → Type 0
  IsQuiet interrupt = ⊥
  IsQuiet (listens (received none)) = ⊥
  IsQuiet (listens (received (some (err e)))) = ⊥
  IsQuiet (listens (received (some panicked))) = ⊥
  IsQuiet _ = Unit

  -- The loop runs, and no shutdown waits at it.
  pub record IsDeaf (d : State) : Type 0 where
    pub runs : d.listening.ended ≡ none
    pub stays : d.exited ≡ false
    pub untold : d.listening_told ≡ false

  pub listen-message :
      (message : Message) (l : Listening)
      → l.ended ≡ none
      → (listen deserialize_msgpack (received (some (ok message)) ∷ []) l).ended ≡ none
  unfolding listen
  listen-message message l h = ground arith

  IsDeaf-after_checks :
      (m : Outcome Error (Loop H F)) (d : State)
      → IsDeaf d
      → IsDeaf (after_checks H F serialize_msgpack deserialize_msgpack m d)
  unfolding after_checks
  IsDeaf-after_checks (ok next) d deaf = record {
    runs = deaf.runs;
    stays = deaf.stays;
    untold = deaf.untold;
  }
  IsDeaf-after_checks (err e) d deaf = record {
    runs = deaf.runs;
    stays = deaf.stays;
    untold = deaf.untold;
  }
  IsDeaf-after_checks panicked d deaf = record {
    runs = deaf.runs;
    stays = deaf.stays;
    untold = deaf.untold;
  }

  listen_ready : (handling told : Bool) → told ≡ false → (not handling && told) ≡ true → ⊥
  listen_ready true told untold h = ground arith
  listen_ready false told untold h = ground arith

  IsDeaf-listens :
      (e : Incoming) (d : State)
      → IsQuiet (listens e)
      → IsDeaf d
      → IsDeaf (act H F serialize_msgpack deserialize_msgpack (listens e) d)
  unfolding act
  IsDeaf-listens Connect.shutdown d quiet deaf =
      if_ready-keeps H F serialize_msgpack deserialize_msgpack IsDeaf
        (not d.handling && d.listening_told)
        (listen_branch H F serialize_msgpack deserialize_msgpack Connect.shutdown) d
        (λ h. absurd (listen_ready d.handling d.listening_told deaf.untold h)) deaf
  IsDeaf-listens (received (some (ok message))) d quiet deaf =
      if_ready-keeps H F serialize_msgpack deserialize_msgpack IsDeaf (not d.handling && true)
        (listen_branch H F serialize_msgpack deserialize_msgpack (received (some (ok message)))) d
        (λ h. record {
          runs = listen-message message d.listening deaf.runs;
          stays = deaf.stays;
          untold = deaf.untold;
        })
        deaf
  IsDeaf-listens (received none) d quiet deaf = absurd quiet
  IsDeaf-listens (received (some (err e))) d quiet deaf = absurd quiet
  IsDeaf-listens (received (some panicked)) d quiet deaf = absurd quiet

  IsDeaf-ended :
      (message : ServerMessage) (sent : List (ProxyMessage H)) (d : State)
      → IsDeaf d
      → IsDeaf (ended H F serialize_msgpack deserialize_msgpack message sent d)
  unfolding ended
  IsDeaf-ended message [] d deaf = record {
    runs = deaf.runs;
    stays = deaf.stays;
    untold = deaf.untold;
  }
  IsDeaf-ended message (r ∷ rs) d deaf = record {
    runs = deaf.runs;
    stays = deaf.stays;
    untold = deaf.untold;
  }

  IsDeaf-end_handler :
      (now : ℕ) (o : Option (ServerMessage × List ServerMessage)) (d : State)
      → IsDeaf d
      → IsDeaf (end_handler H F serialize_msgpack deserialize_msgpack now o d)
  unfolding end_handler
  IsDeaf-end_handler now none d deaf = deaf
  IsDeaf-end_handler now (some (message, others)) d deaf =
      let runs = not (has_ended H F serialize_msgpack deserialize_msgpack d.outgoing.phase) in
      IsDeaf-ended message (handle_message d.service now message runs).0
        (record d { tasks = others })
        (record { runs = deaf.runs; stays = deaf.stays; untold = deaf.untold })

  IsDeaf-act :
      (m : Step) (d : State)
      → IsQuiet m
      → IsDeaf d
      → IsDeaf (act H F serialize_msgpack deserialize_msgpack m d)
  unfolding act
  IsDeaf-act (checks e) d quiet deaf =
      let found = Tasks.step H F d.checks e in
      if_ready-keeps H F serialize_msgpack deserialize_msgpack IsDeaf
        (not d.checks_panicked
          && checks_may H F serialize_msgpack deserialize_msgpack d.checks_told e)
        (after_checks H F serialize_msgpack deserialize_msgpack found) d
        (λ h. IsDeaf-after_checks found d deaf) deaf
  IsDeaf-act (sends m) d quiet deaf =
      if_ready-keeps H F serialize_msgpack deserialize_msgpack IsDeaf
        (sends_may H F serialize_msgpack deserialize_msgpack d.outgoing_told m)
        (send_branch H F serialize_msgpack deserialize_msgpack m) d
        (λ h. record { runs = deaf.runs; stays = deaf.stays; untold = deaf.untold }) deaf
  IsDeaf-act (listens e) d quiet deaf = IsDeaf-listens e d quiet deaf
  IsDeaf-act resumes d quiet deaf =
      if_ready-keeps H F serialize_msgpack deserialize_msgpack IsDeaf d.handling
        (subscribe_anew H F serialize_msgpack deserialize_msgpack) d
        (λ h. record { runs = deaf.runs; stays = deaf.stays; untold = refl }) deaf
  IsDeaf-act (handled k now) d quiet deaf = IsDeaf-end_handler now (take_at k d.tasks) d deaf
  IsDeaf-act interrupt d quiet deaf = absurd quiet

  pub move-act :
      (m : Step) (d : State)
      → is_over H F serialize_msgpack deserialize_msgpack d ≡ false
      → move H F serialize_msgpack deserialize_msgpack m d
        ≡ act H F serialize_msgpack deserialize_msgpack m d
  unfolding move
  move-act m d h = ap (λ b. if b then d else act H F serialize_msgpack deserialize_msgpack m d) h

  pub IsDeaf-run :
      (moves : List Step) (d : State)
      → All IsQuiet moves
      → IsDeaf d
      → IsDeaf (run H F serialize_msgpack deserialize_msgpack moves d)
  IsDeaf-run = run-keeps_if H F serialize_msgpack deserialize_msgpack IsDeaf IsQuiet IsDeaf-act
