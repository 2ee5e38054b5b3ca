-- ===== src/Websocket/Status/Truth.antt =====
-- When the socket says that it is connected, its read loop runs.
use fpd.Base.{
  ℕ, zero, suc, ◌≡◌, refl, sym, ◌∙◌, arith, All, Bool, Bool-cases, true, false, ◌⊎◌, inl, inr,
  Option, none, some, List, [], ◌∷◌,
}
use fpd.Websocket.Settings.{Inner, is_connected, close}
use fpd.Websocket.WriteLoop
use fpd.Websocket.ReadLoop
use fpd.Websocket.Status.{
  Socket, Move, read_task, write_task, connected, old_write_loop_ends, old_ends, closes,
  reader_ended, writer_ended, read_on, read, write_on, spawn_loops, reconnect, move, run, first,
}

-- A move that does not close the socket.
abbrev pub LeavesOpen : Move → Type 0
LeavesOpen closes = ⊥
LeavesOpen _ = Unit

module _ {S : Type 0} where
  -- An end of the read loop stays announced.
  IsTold : Socket S → Type 0
  IsTold s = reader_ended s.reader.phase ≡ true → s.inner.disconnected ≡ true

  IsTold-read_on : (o : Option ReadLoop.Channels) (s : Socket S) → IsTold s → IsTold (read_on o s)
  unfolding read_on IsTold
  IsTold-read_on none s told = told
  IsTold-read_on (some next) s told = elim (Bool-cases (reader_ended next.phase)) [
    | inl ended ↦ rw ended (λ h. refl)
    | inr runs ↦ rw runs (λ h. ground arith)
  ]

  IsTold-read : (started : Bool) (s : Socket S) → IsTold s → IsTold (read started s)
  unfolding read IsTold ReadLoop.spawn
  IsTold-read false s told = λ h. ground arith
  IsTold-read true s told = IsTold-read_on (ReadLoop.poll s.reader) s told

  IsTold-write_on :
      (o : Option WriteLoop.Channels) (s : Socket S) → IsTold s → IsTold (write_on o s)
  unfolding write_on IsTold
  IsTold-write_on none s told = told
  IsTold-write_on (some next) s told = elim (Bool-cases (writer_ended next.phase)) [
    | inl ended ↦ rw ended (λ h. refl)
    | inr runs ↦ rw runs told
  ]

  IsTold-reconnect : (p : ReadLoop.Phase) (s : Socket S) → IsTold s → IsTold (reconnect p s)
  unfolding reconnect spawn_loops IsTold
  IsTold-reconnect (ReadLoop.finished true) s told = λ h. ground arith
  IsTold-reconnect _ s told = told

  IsTold-old_ends : (n : ℕ) (s : Socket S) → IsTold s → IsTold (old_ends n s)
  unfolding old_ends IsTold
  IsTold-old_ends zero s told = told
  IsTold-old_ends (suc n) s told = λ h. refl

  IsTold-move : (m : Move) (s : Socket S) → IsTold s → IsTold (move m s)
  unfolding move IsTold close
  IsTold-move read_task s told = IsTold-read s.started s told
  IsTold-move write_task s told = IsTold-write_on (WriteLoop.poll s.writer) s told
  IsTold-move connected s told = IsTold-reconnect s.reader.phase s told
  IsTold-move old_write_loop_ends s told = IsTold-old_ends s.outlived s told
  IsTold-move _ s told = told

  IsTold-run : (moves : List Move) (s : Socket S) → IsTold s → IsTold (run moves s)
  unfolding run
  IsTold-run [] s told = told
  IsTold-run (m ∷ moves) s told = IsTold-run moves (move m s) (IsTold-move m s told)

  first-IsTold : (inner : Inner S) → IsTold (first inner)
  unfolding first spawn_loops IsTold
  first-IsTold inner = λ h. ground arith

  read_on-closed :
      (o : Option ReadLoop.Channels) (s : Socket S) → (read_on o s).inner.closed ≡ s.inner.closed
  unfolding read_on
  read_on-closed none s = refl
  read_on-closed (some next) s = elim (Bool-cases (reader_ended next.phase)) [
    | inl ended ↦ rw ended refl
    | inr runs ↦ rw runs refl
  ]

  read-closed : (started : Bool) (s : Socket S) → (read started s).inner.closed ≡ s.inner.closed
  unfolding read
  read-closed false s = refl
  read-closed true s = read_on-closed (ReadLoop.poll s.reader) s

  write_on-closed :
      (o : Option WriteLoop.Channels) (s : Socket S) → (write_on o s).inner.closed ≡ s.inner.closed
  unfolding write_on
  write_on-closed none s = refl
  write_on-closed (some next) s = elim (Bool-cases (writer_ended next.phase)) [
    | inl ended ↦ rw ended refl
    | inr runs ↦ rw runs refl
  ]

  reconnect-closed :
      (p : ReadLoop.Phase) (s : Socket S) → (reconnect p s).inner.closed ≡ s.inner.closed
  unfolding reconnect spawn_loops
  reconnect-closed (ReadLoop.finished true) s = refl
  reconnect-closed _ s = refl

  old_ends-closed : (n : ℕ) (s : Socket S) → (old_ends n s).inner.closed ≡ s.inner.closed
  unfolding old_ends
  old_ends-closed zero s = refl
  old_ends-closed (suc n) s = refl

  left_open-move :
      (m : Move) (s : Socket S)
      → (move m s).inner.closed ≡ false
      → LeavesOpen m × (s.inner.closed ≡ false)
  unfolding move close
  left_open-move read_task s h = (tt, sym (read-closed s.started s) ∙ h)
  left_open-move write_task s h = (tt, sym (write_on-closed (WriteLoop.poll s.writer) s) ∙ h)
  left_open-move connected s h = (tt, sym (reconnect-closed s.reader.phase s) ∙ h)
  left_open-move old_write_loop_ends s h = (tt, sym (old_ends-closed s.outlived s) ∙ h)
  left_open-move closes s h = absurd (ground (arith, h))
  left_open-move _ s h = (tt, h)

  left_open-run :
      (moves : List Move) (s : Socket S)
      → (run moves s).inner.closed ≡ false
      → All LeavesOpen moves × (s.inner.closed ≡ false)
  unfolding run
  left_open-run [] s h = (tt, h)
  left_open-run (m ∷ moves) s h =
      let (later, still) = left_open-run moves (move m s) h in
      let (now, before) = left_open-move m s still in ((now, later), before)

  -- From a first connection on, whatever the order of the steps: either `is_connected` is false, or
  -- the read loop of the last connection has not ended and nobody has closed the socket.
  pub run-is_connected :
      (moves : List Move) (inner : Inner S)
      → let end = run moves (first inner) in
        (is_connected end.inner ≡ false)
        ⊎ ((reader_ended end.reader.phase ≡ false) × All (λ m. LeavesOpen m) moves)
  unfolding is_connected IsTold
  run-is_connected moves inner =
      let end = run moves (first inner) in
      let told = IsTold-run moves (first inner) (first-IsTold inner) in
      elim (Bool-cases end.inner.closed) [
        | inl closed ↦ inl (ground arith)
        | inr unclosed ↦ elim (Bool-cases (reader_ended end.reader.phase)) [
          | inl ended ↦ inl (rw (unclosed, told ended) refl)
          | inr runs ↦ inr (runs, (left_open-run moves (first inner) unclosed).0)
        ]
      ]
