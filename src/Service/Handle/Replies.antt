-- ===== src/Service/Handle/Replies.antt =====
-- What the task that handles a message sends.
use fpd.Base.{
  ◌≡◌, refl, ◌∙◌, arith, ℕ, Bool, true, false, none, some, List, [], ◌∷◌, Outcome, ok, err,
  panicked,
}
use fpd.Service.{Host, Error, ProxyService, ServerMessage, ProxyMessage}
use fpd.Service.Handle.{handle_message_inner, send_response, handle_message}
use fpd.Service.Handle.Cases.{
  Returns, HasModules, Handled, rejected, refused, without_module, called, handled,
}
use fpd.Service.Handle.Answers.{handle-op_id, handle-err, handle-ne-panicked}

-- Nothing, or one response with the operation of the message.
pub data Sends {H : Host} (message : ServerMessage) (sent : List (ProxyMessage H)) : Type 0 where
  nothing : sent ≡ [] → Sends message sent
  response :
      (r : ProxyMessage H) (op_id : ℕ)
      → sent ≡ r ∷ []
      → r.op_id ≡ some op_id
      → message.op_id ≡ some op_id
      → Sends message sent

module _ {H : Host} (service : ProxyService H) (now : ℕ) (message : ServerMessage) where
  ok-op_id :
      {r : ProxyMessage H}
      → (handle_message_inner service now message).1 ≡ ok r
      → (op_id : ℕ) × (message.op_id ≡ some op_id)
  ok-op_id {r} h = by_case (handled service now message)
    where
      by_case :
          Handled service now message (handle_message_inner service now message)
          → (op_id : ℕ) × (message.op_id ≡ some op_id)
      by_case (rejected none_given e) = absurd (ground arith)
      by_case (refused op_id x has e) = (op_id, has)
      by_case (without_module source s m e) = absurd (ground arith)
      by_case (called op_id source q labels has v s m e) = (op_id, has)

  sends_by :
      (listening : Bool) (m : Outcome Error (ProxyMessage H))
      → (handle_message_inner service now message).1 ≡ m
      → Sends message (send_response listening m).0
  unfolding send_response
  sends_by true (ok r) e =
      let (op_id, has) = ok-op_id {r = r} e in
      response r op_id refl (handle-op_id service now message {response = r} e ∙ has) has
  sends_by false (ok r) e = nothing refl
  sends_by listening (err x) e = nothing refl
  sends_by listening panicked e = nothing refl

  -- The task sends nothing, or one response with the operation of its message.
  pub handle_message-Sends :
      (listening : Bool) → Sends message (handle_message service now message listening).0
  unfolding handle_message
  handle_message-Sends listening =
      sends_by listening (handle_message_inner service now message).1 refl

  quiet_by :
      (m : Outcome Error (ProxyMessage H))
      → (handle_message_inner service now message).1 ≡ m
      → Returns H
      → HasModules service
      → (send_response true m).0 ≡ []
      → message.op_id ≡ none
  unfolding send_response
  quiet_by (ok r) e t modules h = cc
  quiet_by (err x) e t modules h = handle-err service now message x e
  quiet_by panicked e t modules h = absurd (handle-ne-panicked service now message t modules e)

  -- While its receiver is there, it sends nothing only for a message that has no operation.
  pub handle_message-nothing :
      Returns H
      → HasModules service
      → (handle_message service now message true).0 ≡ []
      → message.op_id ≡ none
  unfolding handle_message
  handle_message-nothing = quiet_by (handle_message_inner service now message).1 refl
