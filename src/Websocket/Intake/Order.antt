-- ===== src/Websocket/Intake/Order.antt =====
-- What `recv` takes, connection by connection.
use mathlib.Core.Path.{subst}
use mathlib.Core.List.{append-nil, append_assoc}
use fpd.Base.{
  ◌≡◌, refl, sym, ◌∙◌, ap, Bool, true, false, List, [], ◌∷◌, ◌++◌, length, drop, drop-append, All,
  ◌&&◌,
}
use fpd.Websocket.Signal.{Signal}
use fpd.Websocket.ReadLoop
use fpd.Websocket.ReadLoop.{Item}
use fpd.Websocket.ReadLoop.Laws
use fpd.Websocket.ReadLoop.Grows
use fpd.Websocket.Keepalive.Reader
use fpd.Websocket.Keepalive.Reader.Laws as ReaderLaws
use fpd.Websocket.Keepalive.Reader.Laws.{visible, visible-append}
use fpd.Websocket.Keepalive.Reader.Grows as ReaderGrows
use fpd.Websocket.Intake.{
  Socket, Move, arrives, reader_task, loop_task, recv_takes, reconnected, seen_by_reader,
  seen_by_loop, read_on, deliver, take_first, fresh_reader, fresh_loop, reconnect,
  asks_to_reconnect, move, run,
}

-- What was delivered of a connection begins what its stream gave, but for pings and pongs.
abbrev pub IsPrefix : List Item × List Item → Type 0
IsPrefix (arrived, delivered) = (rest : List Item) × (visible arrived ≡ delivered ++ rest)

-- What was delivered, in the order in which the connections were made.
abbrev pub deliveries : List (List Item × List Item) → List Item
deliveries [] = []
deliveries ((arrived, delivered) ∷ older) = deliveries older ++ delivered

-- Each connection: what its stream gave and what its loop delivered, newest first.
abbrev pub connections : Socket → List (List Item × List Item)
connections s = (s.arrived, s.loop.delivered) ∷ s.past

pub record IsInOrder (s : Socket) : Type 0 where
  pub by_reader : ReaderLaws.received s.reader ≡ visible s.arrived
  pub by_loop : Laws.received s.loop ≡ s.reader.delivered
  pub reader_drops : ReaderLaws.DropsAtEnd s.reader
  pub loop_drops : Laws.DropsAtEnd s.loop
  pub queue : s.taken ++ s.incoming ≡ deliveries (connections s)
  pub prefixes : All IsPrefix s.past

append-drop :
    (before after more : List Item)
    → after ≡ before ++ more
    → before ++ drop (length before) after ≡ after
append-drop before after more h =
    ap (λ l. before ++ drop (length before) l) h
    ∙ ap (λ l. before ++ l) (drop-append before more)
    ∙ sym h

-- Items that arrive come last.
received-arrived :
    (c : ReadLoop.Channels) (items : List Item)
    → Laws.received (record c { source = c.source ++ items }) ≡ Laws.received c ++ items
received-arrived c items = simp append_assoc

IsInOrder-read_on :
    (s : Socket) (next : Reader.Channels)
    → IsInOrder s
    → ReaderGrows.Grows (seen_by_reader s) next
    → ReaderLaws.received next ≡ ReaderLaws.received s.reader
    → ReaderLaws.DropsAtEnd next
    → IsInOrder (read_on next s)
unfolding read_on
IsInOrder-read_on s next o (more, grown) kept drops = record {
  by_reader = kept ∙ o.by_reader;
  by_loop =
      received-arrived s.loop (drop (length s.reader.delivered) next.delivered)
      ∙ ap (λ l. l ++ drop (length s.reader.delivered) next.delivered) o.by_loop
      ∙ append-drop s.reader.delivered next.delivered more grown;
  reader_drops = drops;
  loop_drops = o.loop_drops;
  queue = o.queue;
  prefixes = o.prefixes;
}

IsInOrder-deliver :
    (s : Socket) (next : ReadLoop.Channels)
    → IsInOrder s
    → Grows.Grows (seen_by_loop s) next
    → Laws.received next ≡ Laws.received s.loop
    → Laws.DropsAtEnd next
    → IsInOrder (deliver next s)
unfolding deliver
IsInOrder-deliver s next o (more, grown) kept drops = record {
  by_reader = o.by_reader;
  by_loop = kept ∙ o.by_loop;
  reader_drops = o.reader_drops;
  loop_drops = drops;
  queue =
      sym (append_assoc s.taken s.incoming (drop (length s.loop.delivered) next.delivered))
      ∙ ap (λ l. l ++ drop (length s.loop.delivered) next.delivered) o.queue
      ∙ append_assoc (deliveries s.past) s.loop.delivered
          (drop (length s.loop.delivered) next.delivered)
      ∙ ap (λ l. deliveries s.past ++ l) (append-drop s.loop.delivered next.delivered more grown);
  prefixes = o.prefixes;
}

-- What the loop delivered of the connection begins what its stream gave.
IsInOrder-IsPrefix : (s : Socket) → IsInOrder s → IsPrefix (s.arrived, s.loop.delivered)
IsInOrder-IsPrefix s o =
    let behind = Laws.held s.loop.phase ++ (s.loop.dropped ++ s.loop.source) in
    let unread = ReaderLaws.held s.reader.phase ++ (s.reader.dropped ++ visible s.reader.source) in
    (
      behind ++ unread,
      sym o.by_reader
          ∙ ap (λ l. l ++ unread) (sym o.by_loop)
          ∙ append_assoc s.loop.delivered behind unread,
    )

IsInOrder-take_first :
    (items : List Item) (s : Socket)
    → s.incoming ≡ items
    → IsInOrder s
    → IsInOrder (take_first items s)
IsInOrder-take_first [] s e o = o
IsInOrder-take_first (item ∷ rest) s e o = record {
  by_reader = o.by_reader;
  by_loop = o.by_loop;
  reader_drops = o.reader_drops;
  loop_drops = o.loop_drops;
  queue = append_assoc s.taken (item ∷ []) rest ∙ ap (λ l. s.taken ++ l) (sym e) ∙ o.queue;
  prefixes = o.prefixes;
}

IsInOrder-reconnect :
    (ready : Bool) (disconnect user_close : Signal) (s : Socket)
    → IsInOrder s
    → IsInOrder (reconnect ready disconnect user_close s)
unfolding reconnect fresh_reader fresh_loop
IsInOrder-reconnect false disconnect user_close s o = o
IsInOrder-reconnect true disconnect user_close s o = record {
  by_reader = refl;
  by_loop = refl;
  reader_drops = λ h. refl;
  loop_drops = λ h. refl;
  queue = o.queue ∙ sym (append-nil (deliveries (connections s)));
  prefixes = (IsInOrder-IsPrefix s o, o.prefixes);
}

IsInOrder-arrives : (item : Item) (s : Socket) → IsInOrder s → IsInOrder (move (arrives item) s)
unfolding move
IsInOrder-arrives item s o = record {
  by_reader =
      (ReaderLaws.received-move (Reader.arrived item) s.reader o.reader_drops).0
      ∙ ap (λ l. l ++ visible (item ∷ [])) o.by_reader
      ∙ sym (visible-append s.arrived (item ∷ []));
  by_loop = o.by_loop;
  reader_drops = (ReaderLaws.received-move (Reader.arrived item) s.reader o.reader_drops).1;
  loop_drops = o.loop_drops;
  queue = o.queue;
  prefixes = o.prefixes;
}

-- A move that neither gives the socket an item nor takes one from it.
same-IsInOrder :
    (s next : Socket)
    → IsInOrder s
    → ReaderLaws.received next.reader ≡ ReaderLaws.received s.reader
    → next.reader.delivered ≡ s.reader.delivered
    → ReaderLaws.DropsAtEnd next.reader
    → Laws.received next.loop ≡ Laws.received s.loop
    → next.loop.delivered ≡ s.loop.delivered
    → Laws.DropsAtEnd next.loop
    → (next.arrived ≡ s.arrived) × (next.past ≡ s.past)
    → next.taken ++ next.incoming ≡ s.taken ++ s.incoming
    → IsInOrder next
same-IsInOrder s next o read read_same reads got got_same gets (stream, older) queue = record {
  by_reader = read ∙ o.by_reader ∙ ap visible (sym stream);
  by_loop = got ∙ o.by_loop ∙ sym read_same;
  reader_drops = reads;
  loop_drops = gets;
  queue =
      queue
      ∙ o.queue
      ∙ ap (λ p. deliveries p ++ s.loop.delivered) (sym older)
      ∙ ap (λ d. deliveries next.past ++ d) (sym got_same);
  prefixes = subst (All IsPrefix) (sym older) o.prefixes;
}

IsInOrder-move : (m : Move) (s : Socket) → IsInOrder s → IsInOrder (move m s)
unfolding move
IsInOrder-move (arrives item) s o = IsInOrder-arrives item s o
IsInOrder-move reader_task s o =
    let (kept, drops) = ReaderLaws.received-move Reader.task (seen_by_reader s) o.reader_drops in
    IsInOrder-read_on s (Reader.move Reader.task (seen_by_reader s)) o
      (ReaderGrows.Grows-task (seen_by_reader s)) (kept ∙ append-nil (ReaderLaws.received s.reader))
      drops
IsInOrder-move loop_task s o =
    let (kept, drops) = Laws.received-move ReadLoop.task (seen_by_loop s) o.loop_drops in
    IsInOrder-deliver s (ReadLoop.move ReadLoop.task (seen_by_loop s)) o
      (Grows.Grows-task (seen_by_loop s)) (kept ∙ append-nil (Laws.received s.loop)) drops
IsInOrder-move recv_takes s o = IsInOrder-take_first s.incoming s refl o
IsInOrder-move (reconnected disconnect user_close) s o =
    IsInOrder-reconnect (s.loop.has_handle && asks_to_reconnect s.loop.phase) disconnect user_close
      s o
IsInOrder-move m s o =
    same-IsInOrder s (move m s) o refl refl o.reader_drops refl refl o.loop_drops (refl, refl) refl

IsInOrder-run : (moves : List Move) (s : Socket) → IsInOrder s → IsInOrder (run moves s)
unfolding run
IsInOrder-run [] s o = o
IsInOrder-run (m ∷ moves) s o = IsInOrder-run moves (move m s) (IsInOrder-move m s o)

-- Whatever the order of the steps of the two read loops, of the stream, of `recv` and of
-- reconnections: what `recv` has taken, followed by what waits for it, is what the loop delivered of
-- each connection, in the order in which they were made; and what was delivered of a connection
-- begins what its stream gave, less the pings and pongs, so no item is reordered, doubled or left out
-- before one that is delivered. This holds from any state whose items are in order in this way, such
-- as that of a first connection.
pub run-delivers :
    (moves : List Move) (s : Socket)
    → IsInOrder s
    → let end = run moves s in
      (end.taken ++ end.incoming ≡ deliveries (connections end)) × All IsPrefix (connections end)
run-delivers moves s o =
    let last = IsInOrder-run moves s o in
    (last.queue, (IsInOrder-IsPrefix (run moves s) last, last.prefixes))
