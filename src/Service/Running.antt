-- ===== src/Service/Running.antt =====
-- `connect` of src/tasks/service.rs as a whole: the task of the status checks, the task that sends
-- and the loop that listens, joined by the outgoing channel and by the shutdown's; with the handler
-- of Ctrl-C and the end of `main` in src/main.rs.
pub mod Keeps
pub mod Accounts
pub mod Deaf
pub mod Asked
pub mod Answered
pub mod Replies
pub mod Shutdown
use fpd.Base.{
  ℕ, String, Bool, true, false, not, ◌&&◌, ◌||◌, Option, none, some, List, [], ◌∷◌, ◌++◌, length,
  drop, Outcome, ok, err, ◌>>=◌, if◌then◌else◌,
}
use fpd.Service.{Error, Host, ProxyService, ServerMessage, ProxyMessage, ProxyMessagePayload}
use fpd.Service.StatusCheck.{Floats}
use fpd.Service.Tasks
use fpd.Service.Tasks.{Loop, Event, take_at}
use fpd.Service.Handle.{handle_message}
use fpd.Service.Outgoing
use fpd.Service.Connect
use fpd.Service.Connect.{ConnectError, not_listening, Incoming, Listening, listen}

module _ (H : Host) (F : Floats) (serialize_msgpack : ProxyMessage H → List ℕ)
    (deserialize_msgpack : List ℕ → Option ServerMessage) where
  -- The three loops, with the shutdown that waits at the receiver of each. `submitted` is what was
  -- sent to the outgoing channel, which is unbounded, in order.
  pub record Daemon : Type 0 where
    -- The handlers share `Inner`, and do not read the states in it, which the checks change.
    pub service : ProxyService H
    pub checks : Loop H F
    -- A panic ends only its task.
    pub checks_panicked : Bool
    pub outgoing : Outgoing.Channels serialize_msgpack
    pub listening : Listening
    -- Whether the loop has taken an item, and has not yet come back to its `select!`.
    pub handling : Bool
    pub submitted : List (ProxyMessage H)
    -- The messages whose handlers run, and those whose have ended, with a response or without one.
    pub tasks : List ServerMessage
    pub replied : List ServerMessage
    pub dropped : List ServerMessage
    pub checks_told : Bool
    pub outgoing_told : Bool
    pub listening_told : Bool
    -- `process::exit`
    pub exited : Bool

  -- What `connect` has spawned, and its loop before its first item.
  unfoldable pub spawned : ProxyService H → Daemon
  spawned service = record {
    service = service;
    checks = record { service = service; sleeping = []; sent = []; stopped = false };
    checks_panicked = false;
    outgoing = record { phase = Outgoing.selecting; queue = []; given = [] };
    listening = record { spawned = []; ended = none };
    handling = false;
    submitted = [];
    tasks = [];
    replied = [];
    dropped = [];
    checks_told = false;
    outgoing_told = false;
    listening_told = false;
    exited = false;
  }

  abbrev pub bound : (String → Bool) → Option String → Outcome ConnectError (Unit {0})
  bound binds none = ok tt
  bound binds (some address) = if binds address then ok tt else err not_listening

  -- `binds`: whether `TcpListener::bind` takes the address.
  unfoldable pub connect :
      {A : Type 0}
      → ProxyService H
      → Outcome ConnectError A
      → (binds : String → Bool) → Outcome ConnectError Daemon
  unfolding spawned
  connect service connection binds = do
    connected ← connection
    listener ← bound binds service.listen_address
    ok (spawned service)

  -- What happens: a loop goes on by a branch of its `select!`, the listening loop comes back to its
  -- own, the handler of a message ends, or Ctrl-C is pressed.
  pub data Move : Type 0 where
    checks : Event H F → Move
    sends : Outgoing.Move serialize_msgpack → Move
    listens : Incoming → Move
    resumes : Move
    handled : (k now : ℕ) → Move
    interrupt : Move

  -- A branch on the shutdown needs one that waits. Only the others queue messages.
  abbrev pub checks_may : Bool → Event H F → Bool
  checks_may told Tasks.shutdown = told
  checks_may told _ = true

  abbrev pub sends_may : Bool → Outgoing.Move serialize_msgpack → Bool
  sends_may told Outgoing.shutdown = told
  sends_may told (Outgoing.queued message) = false
  sends_may told _ = true

  abbrev pub listens_may : Bool → Incoming → Bool
  listens_may told Connect.shutdown = told
  listens_may told _ = true

  -- `outgoing_sender.send`. When the receiver is gone, what is sent stays where it is.
  abbrev pub submit : List (ProxyMessage H) → Daemon → Daemon
  submit messages d = record d {
    submitted = d.submitted ++ messages;
    outgoing = record d.outgoing { queue = d.outgoing.queue ++ messages };
  }

  unfoldable pub after_checks : Outcome Error (Loop H F) → Daemon → Daemon
  after_checks (ok next) d =
      submit (drop (length d.checks.sent) next.sent) (record d { checks = next })
  after_checks _ d = record d { checks_panicked = true }

  abbrev pub has_ended : Outgoing.Phase serialize_msgpack → Bool
  has_ended Outgoing.finished = true
  has_ended _ = false

  -- `handle_message` has sent these.
  unfoldable pub ended : ServerMessage → List (ProxyMessage H) → Daemon → Daemon
  ended message [] d = record d { dropped = d.dropped ++ (message ∷ []) }
  ended message (response ∷ responses) d =
      submit (response ∷ responses) (record d { replied = d.replied ++ (message ∷ []) })

  -- The handler at an index of those that run, at the world `now`.
  unfoldable pub end_handler :
      (now : ℕ) → Option (ServerMessage × List ServerMessage) → Daemon → Daemon
  unfolding ended handle_message
  end_handler now none d = d
  end_handler now (some (message, others)) d =
      ended message (handle_message d.service now message (not (has_ended d.outgoing.phase))).0
        (record d { tasks = others })

  abbrev is_some : {A : Type 0} → Option A → Bool
  is_some none = false
  is_some (some a) = true

  -- Whether the shutdown has a receiver.
  abbrev pub has_listener : Daemon → Bool
  has_listener d =
      not (d.checks_panicked || d.checks.stopped)
      || not (has_ended d.outgoing.phase)
      || not (is_some d.listening.ended)

  -- A branch is taken if it is ready.
  unfoldable pub if_ready : Bool → (Daemon → Daemon) → Daemon → Daemon
  if_ready true branch d = branch d
  if_ready false branch d = d

  -- The sender of the shutdown: an error if it has no receiver.
  unfoldable pub interrupted : Bool → Daemon → Daemon
  interrupted true d = record d { checks_told = true; outgoing_told = true; listening_told = true }
  interrupted false d = record d { exited = true }

  abbrev pub send_branch : Outgoing.Move serialize_msgpack → Daemon → Daemon
  send_branch m d = record d {
    outgoing = Outgoing.move serialize_msgpack d.outgoing.phase m d.outgoing;
  }

  abbrev pub listen_branch : Incoming → Daemon → Daemon
  listen_branch e d =
      let next = listen deserialize_msgpack (e ∷ []) d.listening in
      record d {
        listening = next;
        handling = true;
        tasks = d.tasks ++ drop (length d.listening.spawned) next.spawned;
      }

  -- Each round subscribes anew, and drops the receiver of the round before with what waits there.
  abbrev pub subscribe_anew : Daemon → Daemon
  subscribe_anew d = record d { handling = false; listening_told = false }

  unfoldable pub act : Move → Daemon → Daemon
  unfolding after_checks Tasks.step Outgoing.move listen if_ready interrupted end_handler
  act (checks e) d =
      if_ready (not d.checks_panicked && checks_may d.checks_told e)
        (after_checks (Tasks.step H F d.checks e)) d
  act (sends m) d = if_ready (sends_may d.outgoing_told m) (send_branch m) d
  act (listens e) d =
      if_ready (not d.handling && listens_may d.listening_told e) (listen_branch e) d
  act resumes d = if_ready d.handling subscribe_anew d
  act (handled k now) d = end_handler now (take_at k d.tasks) d
  act interrupt d = interrupted (has_listener d) d

  -- `main` returns with `connect`, and takes the spawned tasks with it.
  abbrev pub is_over : Daemon → Bool
  is_over d = d.exited || is_some d.listening.ended

  unfoldable pub move : Move → Daemon → Daemon
  unfolding act
  move m d = if is_over d then d else act m d

  unfoldable pub run : List Move → Daemon → Daemon
  unfolding move
  run [] d = d
  run (m ∷ moves) d = run moves (move m d)
