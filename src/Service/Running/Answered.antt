-- ===== src/Service/Running/Answered.antt =====
-- Which replies answer which messages, and that the loops and the end of a handler keep it so.
use mathlib.Core.Path.{subst}
use mathlib.Core.List.Permᴰ
use mathlib.Core.List.{Permᴰ, append-nil, append_assoc}
use fpd.Base.{
  ◌≡◌, refl, sym, ◌∙◌, ap, ℕ, Bool, not, true, Option, none, List, [], ◌∷◌, ◌++◌, length, drop,
  drop-append, All, All-append, Outcome, ok, err, panicked,
}
use fpd.Service.{Error, Host, ProxyService, ServerMessage, ProxyMessage}
use fpd.Service.Handle.Replies.{Sends, nothing, response}
use fpd.Service.StatusCheck.{Floats}
use fpd.Service.Tasks
use fpd.Service.Tasks.{Loop, Event, take_at}
use fpd.Service.Tasks.Sent.{Extends-step}
use fpd.Service.Outgoing
use fpd.Service.Connect.{Incoming, listen}
use fpd.Service.Connect.Listen.{listen-more}
use fpd.Service.Running.{Daemon, after_checks, has_ended, ended, Move, send_branch, listen_branch}
use fpd.Service.Running.Asked.{
  answers, asked, answers-append, asked-append, answers-All, moved-replied, moved-dropped,
  answers-reply, asked-message,
}

module _ (H : Host) (F : Floats) (serialize_msgpack : ProxyMessage H → List ℕ)
    (deserialize_msgpack : List ℕ → Option ServerMessage) (service : ProxyService H) where
  abbrev State : Type 0
  State = Daemon H F serialize_msgpack deserialize_msgpack

  abbrev Step : Type 0
  Step = Move H F serialize_msgpack deserialize_msgpack

  abbrev pub runs : State → Bool
  runs d = not (has_ended H F serialize_msgpack deserialize_msgpack d.outgoing.phase)

  -- The replies that were submitted answer the messages with a response, in turn; each message that
  -- came in is one of these, or its handler has ended without one, or runs; and while the sending
  -- task runs, a handler ends without a response only for a message that has no operation.
  pub record IsAnswered (d : State) : Type 0 where
    pub same : d.service ≡ service
    pub in_turn : answers d.submitted ≡ asked d.replied
    pub each_once : Permᴰ (d.replied ++ (d.dropped ++ d.tasks)) d.listening.spawned
    pub not_ignored : runs d ≡ true → All (λ (m : ServerMessage). m.op_id ≡ none) d.dropped

  pub IsAnswered-after_checks :
      (e : Event H F) (m : Outcome Error (Loop H F)) (d : State)
      → Tasks.step H F d.checks e ≡ m
      → IsAnswered d
      → IsAnswered (after_checks H F serialize_msgpack deserialize_msgpack m d)
  unfolding after_checks
  IsAnswered-after_checks e (ok next) d h a =
      let (more, sent, all) = Extends-step H F d.checks e {next = next} h in
      let new : drop (length d.checks.sent) next.sent ≡ more =
        ap (drop (length d.checks.sent)) sent ∙ drop-append d.checks.sent more in
      record {
        same = a.same;
        in_turn =
            ap (λ ms. answers (d.submitted ++ ms)) new
            ∙ answers-append d.submitted more
            ∙ ap (λ l. answers d.submitted ++ l) (answers-All more all)
            ∙ append-nil (answers d.submitted)
            ∙ a.in_turn;
        each_once = a.each_once;
        not_ignored = a.not_ignored;
      }
  IsAnswered-after_checks e (err x) d h a = record {
    same = a.same;
    in_turn = a.in_turn;
    each_once = a.each_once;
    not_ignored = a.not_ignored;
  }
  IsAnswered-after_checks e panicked d h a = record {
    same = a.same;
    in_turn = a.in_turn;
    each_once = a.each_once;
    not_ignored = a.not_ignored;
  }

  -- The sending task does not run again once it has ended.
  runs-before :
      (p : Outgoing.Phase serialize_msgpack) (m : Outgoing.Move serialize_msgpack)
      (c : Outgoing.Channels serialize_msgpack)
      → c.phase ≡ p
      → not (
          has_ended H F serialize_msgpack deserialize_msgpack
            (Outgoing.move serialize_msgpack p m c).phase)
        ≡ true
      → not (has_ended H F serialize_msgpack deserialize_msgpack c.phase) ≡ true
  unfolding Outgoing.move
  runs-before Outgoing.selecting m c e h = rw e refl
  runs-before (Outgoing.sending message) m c e h = rw e refl
  runs-before Outgoing.finished Outgoing.take c e h = h
  runs-before Outgoing.finished Outgoing.shutdown c e h = h
  runs-before Outgoing.finished (Outgoing.sent success) c e h = h
  runs-before Outgoing.finished (Outgoing.queued message) c e h = h

  pub IsAnswered-sends :
      (m : Outgoing.Move serialize_msgpack) (d : State)
      → IsAnswered d
      → IsAnswered (send_branch H F serialize_msgpack deserialize_msgpack m d)
  IsAnswered-sends m d a = record {
    same = a.same;
    in_turn = a.in_turn;
    each_once = a.each_once;
    not_ignored = λ h. a.not_ignored (runs-before d.outgoing.phase m d.outgoing refl h);
  }

  pub IsAnswered-listens :
      (e : Incoming) (d : State)
      → IsAnswered d
      → IsAnswered (listen_branch H F serialize_msgpack deserialize_msgpack e d)
  IsAnswered-listens e d a =
      let (more, grown) = listen-more deserialize_msgpack e d.listening in
      let next = listen deserialize_msgpack (e ∷ []) d.listening in
      let new : drop (length d.listening.spawned) next.spawned ≡ more =
        ap (drop (length d.listening.spawned)) grown ∙ drop-append d.listening.spawned more in
      record {
        same = a.same;
        in_turn = a.in_turn;
        each_once =
            subst (λ xs. Permᴰ (d.replied ++ (d.dropped ++ (d.tasks ++ xs))) next.spawned) (sym new)
              (subst (Permᴰ (d.replied ++ (d.dropped ++ (d.tasks ++ more)))) (sym grown) (
                subst (λ xs. Permᴰ xs (d.listening.spawned ++ more))
                  (append_assoc d.replied (d.dropped ++ d.tasks) more
                    ∙ ap (λ l. d.replied ++ l) (append_assoc d.dropped d.tasks more))
                  (Permᴰ.append_right more a.each_once)));
        not_ignored = a.not_ignored;
      }

  abbrev pub after_handler :
      ServerMessage → List (ProxyMessage H) → List ServerMessage → State → State
  after_handler message sent others d =
      ended H F serialize_msgpack deserialize_msgpack message sent (record d { tasks = others })

  pub IsAnswered-ended :
      (message : ServerMessage) (sent : List (ProxyMessage H)) (others : List ServerMessage)
      (d : State)
      → Sends message sent
      → Permᴰ d.tasks (message ∷ others)
      → (runs d ≡ true → sent ≡ [] → message.op_id ≡ none)
      → IsAnswered d
      → IsAnswered (after_handler message sent others d)
  unfolding ended
  IsAnswered-ended message sent others d (nothing e) taken quiet a =
      subst (λ sent. IsAnswered (after_handler message sent others d)) (sym e)
        (record {
          same = a.same;
          in_turn = a.in_turn;
          each_once =
              moved-dropped d.replied d.dropped d.tasks others d.listening.spawned message
                a.each_once taken;
          not_ignored = λ h.
              All-append (λ (m : ServerMessage). m.op_id ≡ none) d.dropped (message ∷ [])
                (a.not_ignored h) (quiet h e, tt);
        })
  IsAnswered-ended message sent others d (response r op_id e replies has) taken quiet a =
      subst (λ sent. IsAnswered (after_handler message sent others d)) (sym e)
        (record {
          same = a.same;
          in_turn =
              answers-append d.submitted (r ∷ [])
              ∙ ap (λ l. answers d.submitted ++ l) (answers-reply r replies)
              ∙ ap (λ l. l ++ (op_id ∷ [])) a.in_turn
              ∙ ap (λ l. asked d.replied ++ l) (sym (asked-message message has))
              ∙ sym (asked-append d.replied (message ∷ []));
          each_once =
              moved-replied d.replied d.dropped d.tasks others d.listening.spawned message
                a.each_once taken;
          not_ignored = a.not_ignored;
        })
