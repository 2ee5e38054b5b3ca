-- ===== src/Service/Running/Replies.antt =====
-- Which messages are answered.
use mathlib.Core.Path.{subst}
use mathlib.Core.List.{Permᴰ}
use fpd.Base.{
  ◌≡◌, refl, sym, ◌∙◌, ap, ℕ, Bool-cases, not, ◌&&◌, true, ◌⊎◌, inl, inr, Option, none, some, List,
  ◌++◌, All,
}
use fpd.Service.{Host, ProxyService, ServerMessage, ProxyMessage}
use fpd.Service.Handle.{handle_message}
use fpd.Service.Handle.Cases.{Returns, HasModules}
use fpd.Service.Handle.Replies.{handle_message-Sends, handle_message-nothing}
use fpd.Service.StatusCheck.{Floats}
use fpd.Service.Tasks
use fpd.Service.Tasks.{Loop, Event, take_at}
use fpd.Service.Running.{
  Daemon, after_checks, has_ended, end_handler, Move, checks, sends, listens, resumes, handled,
  interrupt, checks_may, sends_may, listens_may, has_listener, send_branch, listen_branch,
  subscribe_anew, act, spawned, run,
}
use fpd.Service.Running.Answered.{
  IsAnswered, runs, IsAnswered-after_checks, IsAnswered-sends, IsAnswered-listens, IsAnswered-ended,
}
use fpd.Service.Running.Keeps.{if_ready-keeps, interrupted-keeps, run-keeps}
use fpd.Service.Running.Asked.{answers, asked, Taken, Taken-take_at}

module _ (H : Host) (F : Floats) (serialize_msgpack : ProxyMessage H → List ℕ)
    (deserialize_msgpack : List ℕ → Option ServerMessage) (service : ProxyService H) (t : Returns H)
    (modules : HasModules service) where
  abbrev State : Type 0
  State = Daemon H F serialize_msgpack deserialize_msgpack

  abbrev Step : Type 0
  Step = Move H F serialize_msgpack deserialize_msgpack

  abbrev Answered : State → Type 0
  Answered = IsAnswered H F serialize_msgpack deserialize_msgpack service

  IsAnswered-end_handler :
      (now : ℕ) (o : Option (ServerMessage × List ServerMessage)) (d : State)
      → Taken d.tasks o
      → Answered d
      → Answered (end_handler H F serialize_msgpack deserialize_msgpack now o d)
  unfolding end_handler
  IsAnswered-end_handler now none d taken a = a
  IsAnswered-end_handler now (some (message, others)) d taken a =
      IsAnswered-ended H F serialize_msgpack deserialize_msgpack service message
        (handle_message d.service now message
          (runs H F serialize_msgpack deserialize_msgpack service d)).0
        others d
        (handle_message-Sends d.service now message
          (runs H F serialize_msgpack deserialize_msgpack service d))
        taken
        (λ h e.
          handle_message-nothing d.service now message t (subst HasModules (sym a.same) modules)
            (ap (λ b. (handle_message d.service now message b).0) (sym h) ∙ e))
        a

  IsAnswered-act :
      (m : Step) (d : State)
      → Answered d
      → Answered (act H F serialize_msgpack deserialize_msgpack m d)
  unfolding act
  IsAnswered-act (checks e) d a =
      let found = Tasks.step H F d.checks e in
      if_ready-keeps H F serialize_msgpack deserialize_msgpack Answered
        (not d.checks_panicked
          && checks_may H F serialize_msgpack deserialize_msgpack d.checks_told e)
        (after_checks H F serialize_msgpack deserialize_msgpack found) d
        (λ h.
          IsAnswered-after_checks H F serialize_msgpack deserialize_msgpack service e found d refl
            a)
        a
  IsAnswered-act (sends m) d a =
      if_ready-keeps H F serialize_msgpack deserialize_msgpack Answered
        (sends_may H F serialize_msgpack deserialize_msgpack d.outgoing_told m)
        (send_branch H F serialize_msgpack deserialize_msgpack m) d
        (λ h. IsAnswered-sends H F serialize_msgpack deserialize_msgpack service m d a) a
  IsAnswered-act (listens e) d a =
      if_ready-keeps H F serialize_msgpack deserialize_msgpack Answered
        (not d.handling && listens_may H F serialize_msgpack deserialize_msgpack d.listening_told e)
        (listen_branch H F serialize_msgpack deserialize_msgpack e) d
        (λ h. IsAnswered-listens H F serialize_msgpack deserialize_msgpack service e d a) a
  IsAnswered-act resumes d a =
      if_ready-keeps H F serialize_msgpack deserialize_msgpack Answered d.handling
        (subscribe_anew H F serialize_msgpack deserialize_msgpack) d
        (λ h. record {
          same = a.same;
          in_turn = a.in_turn;
          each_once = a.each_once;
          not_ignored = a.not_ignored;
        })
        a
  IsAnswered-act (handled k now) d a =
      IsAnswered-end_handler now (take_at k d.tasks) d (Taken-take_at k d.tasks) a
  IsAnswered-act interrupt d a =
      interrupted-keeps H F serialize_msgpack deserialize_msgpack Answered
        (has_listener H F serialize_msgpack deserialize_msgpack d) d
        (record {
          same = a.same;
          in_turn = a.in_turn;
          each_once = a.each_once;
          not_ignored = a.not_ignored;
        })
        (record {
          same = a.same;
          in_turn = a.in_turn;
          each_once = a.each_once;
          not_ignored = a.not_ignored;
        })

  spawned-IsAnswered : Answered (spawned H F serialize_msgpack deserialize_msgpack service)
  unfolding spawned
  spawned-IsAnswered = record {
    same = refl;
    in_turn = refl;
    each_once = Permᴰ.nil;
    not_ignored = λ h. tt;
  }

  -- At any time of a run of `connect`, whatever the loops, the handlers and Ctrl-C do and in whatever
  -- order: the replies that were submitted answer the operations of the messages with a response, in
  -- turn; each message that was handed on is, once, one of these, or its handler has ended without a
  -- response, or runs; and either the sending task has ended, or every message whose handler has ended
  -- without a response has no operation. This is if the provider runtime and the serializers return, and
  -- each data source has an entry for its provider among the modules.
  pub run-answers :
      (moves : List Step)
      → let end =
          run H F serialize_msgpack deserialize_msgpack moves
            (spawned H F serialize_msgpack deserialize_msgpack service) in
        (answers end.submitted ≡ asked end.replied)
        × Permᴰ (end.replied ++ (end.dropped ++ end.tasks)) end.listening.spawned
        × ((has_ended H F serialize_msgpack deserialize_msgpack end.outgoing.phase ≡ true)
            ⊎ All (λ (m : ServerMessage). m.op_id ≡ none) end.dropped)
  run-answers moves =
      let end =
        run H F serialize_msgpack deserialize_msgpack moves
          (spawned H F serialize_msgpack deserialize_msgpack service) in
      let last =
        run-keeps H F serialize_msgpack deserialize_msgpack Answered IsAnswered-act moves
          (spawned H F serialize_msgpack deserialize_msgpack service) spawned-IsAnswered in
      (
        last.in_turn,
        last.each_once,
        elim (Bool-cases (has_ended H F serialize_msgpack deserialize_msgpack end.outgoing.phase)) [
          | inl over ↦ inl over
          | inr still ↦ inr (last.not_ignored (ap not still))
        ],
      )
