-- ===== src/Service/Running/Keeps.antt =====
-- Inductions over a run of `connect`: what each step keeps, a run keeps.
use fpd.Base.{◌≡◌, refl, ℕ, Bool, true, false, Option, List, [], ◌∷◌, All, if◌then◌else◌}
use fpd.Service.{Host, ServerMessage, ProxyMessage}
use fpd.Service.StatusCheck.{Floats}
use fpd.Service.Running.{Daemon, Move, if_ready, interrupted, act, is_over, move, run}

module _ (H : Host) (F : Floats) (serialize_msgpack : ProxyMessage H → List ℕ)
    (deserialize_msgpack : List ℕ → Option ServerMessage)
    (P : Daemon H F serialize_msgpack deserialize_msgpack → Type 0) where
  abbrev State : Type 0
  State = Daemon H F serialize_msgpack deserialize_msgpack

  abbrev Step : Type 0
  Step = Move H F serialize_msgpack deserialize_msgpack

  pub if_ready-keeps :
      (ready : Bool) (branch : State → State) (d : State)
      → (ready ≡ true → P (branch d))
      → P d
      → P (if_ready H F serialize_msgpack deserialize_msgpack ready branch d)
  unfolding if_ready
  if_ready-keeps true branch d h p = h refl
  if_ready-keeps false branch d h p = p

  pub interrupted-keeps :
      (b : Bool) (d : State)
      → P (record d { checks_told = true; outgoing_told = true; listening_told = true })
      → P (record d { exited = true })
      → P (interrupted H F serialize_msgpack deserialize_msgpack b d)
  unfolding interrupted
  interrupted-keeps true d told exited = told
  interrupted-keeps false d told exited = exited

  unless-keeps :
      (over : Bool) (m : Step) (d : State)
      → P (act H F serialize_msgpack deserialize_msgpack m d)
      → P d
      → P (if over then d else act H F serialize_msgpack deserialize_msgpack m d)
  unless-keeps true m d h p = p
  unless-keeps false m d h p = h

  -- If the steps are of a kind that keeps it.
  pub run-keeps_if :
      (Q : Step → Type 0)
      → ((m : Step) (d : State) → Q m → P d → P (act H F serialize_msgpack deserialize_msgpack m d))
      → (moves : List Step) (d : State) → All Q moves
      → P d
      → P (run H F serialize_msgpack deserialize_msgpack moves d)
  unfolding run move
  run-keeps_if Q keeps [] d q p = p
  run-keeps_if Q keeps (m ∷ moves) d (first, rest) p =
      run-keeps_if Q keeps moves (move H F serialize_msgpack deserialize_msgpack m d) rest (
        unless-keeps (is_over H F serialize_msgpack deserialize_msgpack d) m d (keeps m d first p)
          p)

  pub run-keeps :
      ((m : Step) (d : State) → P d → P (act H F serialize_msgpack deserialize_msgpack m d))
      → (moves : List Step) (d : State) → P d
      → P (run H F serialize_msgpack deserialize_msgpack moves d)
  unfolding run move
  run-keeps keeps [] d p = p
  run-keeps keeps (m ∷ moves) d p =
      run-keeps keeps moves (move H F serialize_msgpack deserialize_msgpack m d)
        (unless-keeps (is_over H F serialize_msgpack deserialize_msgpack d) m d (keeps m d p) p)
