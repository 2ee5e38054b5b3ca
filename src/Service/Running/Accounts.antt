-- ===== src/Service/Running/Accounts.antt =====
-- What the relay is sent, and in which order.
use mathlib.Core.Path.{subst}
use mathlib.Core.List.{append-nil}
use fpd.Base.{
  ◌≡◌, refl, sym, none, some, ◌∙◌, ap, arith, ℕ, String, Bool, not, ◌&&◌, true, Option, List, [],
  ◌∷◌, ◌++◌, length, drop, drop-append, Outcome, ok, err, panicked, ◌>>=◌, bind-eq-ok,
}
use fpd.Service.{Error, Host, ProxyService, ServerMessage, ProxyMessage}
use fpd.Service.StatusCheck.{Floats}
use fpd.Service.Tasks
use fpd.Service.Handle.{handle_message}
use fpd.Service.Handle.Replies.{Sends, nothing, response, handle_message-Sends}
use fpd.Service.Tasks.{Loop, Event, take_at}
use fpd.Service.Tasks.Sent.{announcements, announcements-append, announcements-All, Extends-step}
use fpd.Service.Outgoing
use fpd.Service.Outgoing.{queued}
use fpd.Service.Outgoing.Laws.{
  encoded, encoded-append, outgoing, outgoing-queued, outgoing-move, queued_by,
}
use fpd.Service.Connect.{ConnectError}
use fpd.Service.Running.{
  Daemon, after_checks, Move, checks, sends, listens, resumes, handled, interrupt, sends_may,
  checks_may, listens_may, has_listener, has_ended, ended, end_handler, send_branch, listen_branch,
  subscribe_anew, act, spawned, bound, connect, run,
}
use fpd.Service.Running.Keeps.{if_ready-keeps, interrupted-keeps, run-keeps}

module _ (H : Host) (F : Floats) (serialize_msgpack : ProxyMessage H → List ℕ)
    (deserialize_msgpack : List ℕ → Option ServerMessage) where
  abbrev State : Type 0
  State = Daemon H F serialize_msgpack deserialize_msgpack

  abbrev Step : Type 0
  Step = Move H F serialize_msgpack deserialize_msgpack

  -- What the socket was given, with what is to be given, are the submitted messages in order, and the
  -- announcements among them are those of the checks.
  pub record Accounts (d : State) : Type 0 where
    pub in_order : outgoing serialize_msgpack d.outgoing ≡ encoded serialize_msgpack d.submitted
    pub announced : announcements d.submitted ≡ d.checks.sent

  Accounts-submit :
      (messages : List (ProxyMessage H)) (before after : State)
      → Accounts before
      → after.outgoing ≡ record before.outgoing { queue = before.outgoing.queue ++ messages }
      → after.submitted ≡ before.submitted ++ messages
      → after.checks.sent ≡ before.checks.sent ++ announcements messages
      → Accounts after
  Accounts-submit messages before after a out sub sent = record {
    in_order =
        ap (outgoing serialize_msgpack) out
        ∙ outgoing-queued serialize_msgpack before.outgoing messages
        ∙ ap (λ l. l ++ encoded serialize_msgpack messages) a.in_order
        ∙ sym (encoded-append serialize_msgpack before.submitted messages)
        ∙ ap (encoded serialize_msgpack) (sym sub);
    announced =
        ap announcements sub
        ∙ announcements-append before.submitted messages
        ∙ ap (λ l. l ++ announcements messages) a.announced
        ∙ sym sent;
  }

  Accounts-after_checks :
      (e : Event H F) (m : Outcome Error (Loop H F)) (d : State)
      → Tasks.step H F d.checks e ≡ m
      → Accounts d
      → Accounts (after_checks H F serialize_msgpack deserialize_msgpack m d)
  unfolding after_checks
  Accounts-after_checks e (ok next) d h a =
      let (more, sent, all) = Extends-step H F d.checks e {next = next} h in
      let new : drop (length d.checks.sent) next.sent ≡ more =
        ap (drop (length d.checks.sent)) sent ∙ drop-append d.checks.sent more in
      Accounts-submit more d (after_checks H F serialize_msgpack deserialize_msgpack (ok next) d) a
        (ap (λ ms. record d.outgoing { queue = d.outgoing.queue ++ ms }) new)
        (ap (λ ms. d.submitted ++ ms) new)
        (sent ∙ ap (λ ms. d.checks.sent ++ ms) (sym (announcements-All more all)))
  Accounts-after_checks e (err x) d h a = record { in_order = a.in_order; announced = a.announced }
  Accounts-after_checks e panicked d h a = record { in_order = a.in_order; announced = a.announced }

  -- Only the other tasks queue messages.
  queued_by-nil :
      (told : Bool) (m : Outgoing.Move serialize_msgpack)
      → sends_may H F serialize_msgpack deserialize_msgpack told m ≡ true
      → queued_by serialize_msgpack m ≡ []
  queued_by-nil told (queued message) h = cc
  queued_by-nil told Outgoing.take h = refl
  queued_by-nil told Outgoing.shutdown h = refl
  queued_by-nil told (Outgoing.sent success) h = refl

  Accounts-sends :
      (m : Outgoing.Move serialize_msgpack) (d : State)
      → sends_may H F serialize_msgpack deserialize_msgpack d.outgoing_told m ≡ true
      → Accounts d
      → Accounts
          (record d { outgoing = Outgoing.move serialize_msgpack d.outgoing.phase m d.outgoing })
  Accounts-sends m d may a = record {
    in_order =
        outgoing-move serialize_msgpack d.outgoing.phase m d.outgoing refl
        ∙ ap (λ ms. outgoing serialize_msgpack d.outgoing ++ encoded serialize_msgpack ms)
            (queued_by-nil d.outgoing_told m may)
        ∙ append-nil (outgoing serialize_msgpack d.outgoing)
        ∙ a.in_order;
    announced = a.announced;
  }

  announcements-reply :
      (r : ProxyMessage H) {op_id : ℕ} → r.op_id ≡ some op_id → announcements (r ∷ []) ≡ []
  announcements-reply r e = rw e refl

  Accounts-ended :
      (message : ServerMessage) (sent : List (ProxyMessage H)) (d : State)
      → Sends message sent
      → Accounts d
      → Accounts (ended H F serialize_msgpack deserialize_msgpack message sent d)
  unfolding ended
  Accounts-ended message sent d (nothing e) a =
      subst (λ sent. Accounts (ended H F serialize_msgpack deserialize_msgpack message sent d))
        (sym e) (record { in_order = a.in_order; announced = a.announced })
  Accounts-ended message sent d (response r op_id e answers has) a =
      subst (λ sent. Accounts (ended H F serialize_msgpack deserialize_msgpack message sent d))
        (sym e)
        (Accounts-submit (r ∷ []) d
          (ended H F serialize_msgpack deserialize_msgpack message (r ∷ []) d) a refl refl
          (sym (append-nil d.checks.sent)
            ∙ ap (λ ms. d.checks.sent ++ ms) (sym (announcements-reply r answers))))

  Accounts-end_handler :
      (now : ℕ) (o : Option (ServerMessage × List ServerMessage)) (d : State)
      → Accounts d
      → Accounts (end_handler H F serialize_msgpack deserialize_msgpack now o d)
  unfolding end_handler
  Accounts-end_handler now none d a = a
  Accounts-end_handler now (some (message, others)) d a =
      let runs = not (has_ended H F serialize_msgpack deserialize_msgpack d.outgoing.phase) in
      Accounts-ended message (handle_message d.service now message runs).0
        (record d { tasks = others }) (handle_message-Sends d.service now message runs)
        (record { in_order = a.in_order; announced = a.announced })

  Accounts-act :
      (m : Step) (d : State)
      → Accounts d
      → Accounts (act H F serialize_msgpack deserialize_msgpack m d)
  unfolding act
  Accounts-act (checks e) d a =
      let found = Tasks.step H F d.checks e in
      if_ready-keeps H F serialize_msgpack deserialize_msgpack Accounts
        (not d.checks_panicked
          && checks_may H F serialize_msgpack deserialize_msgpack d.checks_told e)
        (after_checks H F serialize_msgpack deserialize_msgpack found) d
        (λ h. Accounts-after_checks e found d refl a) a
  Accounts-act (sends m) d a =
      if_ready-keeps H F serialize_msgpack deserialize_msgpack Accounts
        (sends_may H F serialize_msgpack deserialize_msgpack d.outgoing_told m)
        (send_branch H F serialize_msgpack deserialize_msgpack m) d (λ h. Accounts-sends m d h a) a
  Accounts-act (listens e) d a =
      if_ready-keeps H F serialize_msgpack deserialize_msgpack Accounts
        (not d.handling && listens_may H F serialize_msgpack deserialize_msgpack d.listening_told e)
        (listen_branch H F serialize_msgpack deserialize_msgpack e) d
        (λ h. record { in_order = a.in_order; announced = a.announced }) a
  Accounts-act resumes d a =
      if_ready-keeps H F serialize_msgpack deserialize_msgpack Accounts d.handling
        (subscribe_anew H F serialize_msgpack deserialize_msgpack) d
        (λ h. record { in_order = a.in_order; announced = a.announced }) a
  Accounts-act (handled k now) d a = Accounts-end_handler now (take_at k d.tasks) d a
  Accounts-act interrupt d a =
      interrupted-keeps H F serialize_msgpack deserialize_msgpack Accounts
        (has_listener H F serialize_msgpack deserialize_msgpack d) d
        (record { in_order = a.in_order; announced = a.announced })
        (record { in_order = a.in_order; announced = a.announced })

  spawned-Accounts :
      (service : ProxyService H)
      → Accounts (spawned H F serialize_msgpack deserialize_msgpack service)
  unfolding spawned
  spawned-Accounts service = record { in_order = refl; announced = refl }

  -- At any time of a run of `connect`, whatever the loops, the replies and Ctrl-C do and in whatever
  -- order: the messages that were given to the socket, the one that is being given and those that wait
  -- are together, in this order, the encodings of all that the tasks have submitted, each once; and
  -- those of the submitted messages that answer no operation are those of the status checks, in order.
  pub connect-Accounts :
      {A : Type 0} (moves : List Step) (service : ProxyService H)
      (connection : Outcome ConnectError A) (binds : String → Bool) {d : State}
      → connect H F serialize_msgpack deserialize_msgpack service connection binds ≡ ok d
      → Accounts (run H F serialize_msgpack deserialize_msgpack moves d)
  unfolding connect
  connect-Accounts moves service connection binds {d} h =
      let (a, _, after) =
        bind-eq-ok connection
          (λ a. do
            listener ← bound H F serialize_msgpack deserialize_msgpack binds service.listen_address
            ok (spawned H F serialize_msgpack deserialize_msgpack service))
          h in
      let (_, _, is) =
        bind-eq-ok (bound H F serialize_msgpack deserialize_msgpack binds service.listen_address)
          (λ listener. ok (spawned H F serialize_msgpack deserialize_msgpack service)) after in
      let same : spawned H F serialize_msgpack deserialize_msgpack service ≡ d =
        ground (arith, is) in
      run-keeps H F serialize_msgpack deserialize_msgpack Accounts Accounts-act moves d
        (subst Accounts same (spawned-Accounts service))
