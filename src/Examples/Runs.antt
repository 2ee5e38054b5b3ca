-- ===== src/Examples/Runs.antt =====
-- The theorems on `connect` in src/tasks/service.rs as a whole, at runs with a shutdown.
use mathlib.Core.List.{Permᴰ}
use fpd.Base.{
  All, ◌++◌, ◌⊎◌, string_eq, ℕ, String, ◌≡◌, refl, Bool, true, false, Option, none, some, List, [],
  ◌∷◌, ok,
}
use fpd.Websocket.{binary, text}
use fpd.Service.{ProxyMessage, ServerMessage, get_config_schema}
use fpd.Daemon.Logger.{debug, directives, initialize_logger}
use fpd.Base.Dict
use fpd.Service.Bindings
use fpd.Service.Handle.{call_provider}
use fpd.Service.StatusCheck.{new, next}
use fpd.Service.Update.{check_provider_status_v2, update_all_data_sources}
use fpd.Service.Tasks
use fpd.Service.Outgoing
use fpd.Service.Connect
use fpd.Service.Connect.{received}
use fpd.Service.Running.{
  Daemon, spawned, connect, Move, checks, sends, listens, resumes, handled, has_ended, interrupt,
  run,
}
use fpd.Service.Running.Accounts.{Accounts, connect-Accounts}
use fpd.Service.Running.Asked.{answers, asked}
use fpd.Service.Running.Replies.{run-answers}
use fpd.Service.Running.Shutdown.{run-deaf}
use fpd.Examples.Hosts.{clock, clock-Returns, service, service-HasModules, halves}

abbrev serialize : ProxyMessage clock → List ℕ
serialize message = elim message.op_id [ none ↦ 0 ∷ [] | some op_id ↦ op_id ∷ [] ]

-- Each item asks for the schema of the data source.
abbrev asks : ServerMessage
asks = record {
  op_id = some 7;
  protocol_version = 2;
  data_source_name = "metrics";
  payload = get_config_schema;
}

abbrev deserialize : List ℕ → Option ServerMessage
deserialize bytes = some asks

abbrev Run : Type 0
Run = Daemon clock halves serialize deserialize

abbrev binds : String → Bool
binds address = true

abbrev started : Run
unfolding spawned
started = spawned clock halves serialize deserialize service

-- A tick, a message with its reply, and Ctrl-C, at which the checks are told first.
abbrev shutdown_run : List (Move clock halves serialize deserialize)
shutdown_run =
    checks (Tasks.tick 4 9)
    ∷ sends Outgoing.take
    ∷ listens (received (some (ok (binary (1 ∷ [])))))
    ∷ resumes
    ∷ handled 0 5
    ∷ sends (Outgoing.sent true)
    ∷ interrupt
    ∷ checks Tasks.shutdown
    ∷ sends Outgoing.take
    ∷ listens Connect.shutdown
    ∷ []

connect-Accounts_example :
    Accounts clock halves serialize deserialize
      (run clock halves serialize deserialize shutdown_run started)
unfolding connect
connect-Accounts_example =
    connect-Accounts clock halves serialize deserialize {A = Unit {0}} shutdown_run service (ok tt)
      binds {d = started} refl

-- The shutdown waits at the listening loop.
abbrev told : Run
unfolding spawned
told = record started { listening_told = true; checks_told = true; outgoing_told = true }

run-deaf_example :
    let end =
      run clock halves serialize deserialize
        (listens (received (some (ok (text "hi"))))
          ∷ resumes
          ∷ checks Tasks.shutdown
          ∷ sends Outgoing.shutdown
          ∷ listens Connect.shutdown
          ∷ [])
        told in
    (end.listening.ended ≡ none) × (end.exited ≡ false) × (end.listening_told ≡ false)
unfolding spawned
run-deaf_example =
    run-deaf clock halves serialize deserialize (text "hi")
      (checks Tasks.shutdown ∷ sends Outgoing.shutdown ∷ listens Connect.shutdown ∷ []) told refl
      refl refl (tt, (tt, (tt, tt)))

-- RUST_LOG comes first.
both_set :
    initialize_logger {E = Unit {0}}
      (λ text. true)
      true
      (record { log_level = some debug; rust_log = some "trace"; log_json = false })
    ≡ ok (record { env_filter = directives "trace"; json = false; warns = true })
unfolding initialize_logger
both_set = refl

shutdown_run_replies :
    (run clock halves serialize deserialize shutdown_run started).replied ≡ asks ∷ []
unfolding run string_eq started update_all_data_sources Dict.keys Dict.get new next
    check_provider_status_v2 call_provider Bindings.invoke_provider_v2 Bindings.get_config_schema
shutdown_run_replies = refl

run-answers_example :
    let end =
      run clock halves serialize deserialize shutdown_run
        (spawned clock halves serialize deserialize service) in
    (answers end.submitted ≡ asked end.replied)
    × Permᴰ (end.replied ++ (end.dropped ++ end.tasks)) end.listening.spawned
    × ((has_ended clock halves serialize deserialize end.outgoing.phase ≡ true)
        ⊎ All (λ (m : ServerMessage). m.op_id ≡ none) end.dropped)
run-answers_example =
    run-answers clock halves serialize deserialize service clock-Returns service-HasModules
      shutdown_run
