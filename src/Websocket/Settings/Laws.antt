-- ===== src/Websocket/Settings/Laws.antt =====
-- What a handshake request carries, and what `recv` skips and returns.
use mathlib.Core.Option
use fpd.Base.{
  String, ◌≡◌, refl, sym, ap, ◌≢◌, ◌⊎◌, arith, Bool, true, false, Option, none, some, List, [], ◌∷◌,
  ◌++◌,
}
use fpd.Base.{Outcome, ok, err, string_eq, ◌==◌, if◌then◌else◌, All}
use fpd.Base.Dict
use fpd.Base.Dict.{Dict}
use fpd.Websocket.{Message, Request, Error, connection_closed, reset_without_closing_handshake}
use fpd.Websocket.Settings.{
  Inner, Arrival, incoming, close_changed, recv, clone_request, Http, handshake_headers,
  handshake_request,
}

-- A header of the clone has the last value that the original gives it.
get-clone_request :
    (name : String) (original : Request)
    → Dict.get name (clone_request original).headers ≡ Dict.last name original.headers
unfolding clone_request
get-clone_request name original = Dict.get-extend_nil name original.headers

get-handshake_headers :
    (name host key : String) (headers : Dict String String)
    → Dict.get name (handshake_headers host key headers) ≡ (
        if name == "sec-websocket-key"
        then some key
        else if name == "sec-websocket-version"
        then some "13"
        else if name == "upgrade"
        then some "websocket"
        else if name == "connection"
        then some "Upgrade"
        else if name == "host"
        then some host
        else Dict.get name headers)
unfolding handshake_headers
get-handshake_headers name host key headers = simp Dict.get-insert

abbrev pub handshake_names : List String
handshake_names =
    "host" ∷ "connection" ∷ "upgrade" ∷ "sec-websocket-version" ∷ "sec-websocket-key" ∷ []

module _ (h : Http) {S : Type 0} (inner : Inner S) (key : String) {r : Request} where
  handshake_request-eq-ok :
      handshake_request h inner key ≡ ok r
      → (host host_value key_value : String) × (h.uri_host inner.request.uri ≡ some host)
        × (h.header_value host ≡ some host_value)
        × (h.header_value key ≡ some key_value)
        × (r ≡ record inner.request {
          headers = handshake_headers host_value key_value (clone_request inner.request).headers;
        })
  unfolding handshake_request
  handshake_request-eq-ok e = ground arith

  -- A handshake request that is made keeps the caller's method, address and headers (of a repeated
  -- header its last value), except that it has the host of its own address, the fresh key and the
  -- three fixed values in the five headers of a WebSocket handshake.
  pub handshake_request_lem :
      (name : String)
      → All (λ own. name ≢ own) handshake_names
      → handshake_request h inner key ≡ ok r
      → (r.method ≡ inner.request.method)
        × (r.uri ≡ inner.request.uri)
        × (Dict.get "host" r.headers ≡ Option.bind (h.uri_host r.uri) h.header_value)
        × (Dict.get "connection" r.headers ≡ some "Upgrade")
        × (Dict.get "upgrade" r.headers ≡ some "websocket")
        × (Dict.get "sec-websocket-version" r.headers ≡ some "13")
        × (Dict.get "sec-websocket-key" r.headers ≡ h.header_value key)
        × (Dict.get name r.headers ≡ Dict.last name inner.request.headers)
  unfolding string_eq Option.bind
  handshake_request_lem name others e =
      let (host, host_value, key_value, found, host_ok, key_ok, same) = handshake_request-eq-ok e in
      let headers = (clone_request inner.request).headers in
      let set = λ (name : String). get-handshake_headers name host_value key_value headers in
      (
        ap (λ (x : Request). x.method) same,
        ap (λ (x : Request). x.uri) same,
        rw (same, set "host", found) (sym host_ok),
        rw same (set "connection"),
        rw same (set "upgrade"),
        rw same (set "sec-websocket-version"),
        rw (same, set "sec-websocket-key") (sym key_ok),
        rw same (ground (arith, set name, get-clone_request name inner.request)),
      )

-- An arrival that `recv` passes over.
abbrev pub IsQuiet : Arrival → Type 0
IsQuiet a =
    (a ≡ incoming (some (err reset_without_closing_handshake))) ⊎ (a ≡ close_changed true false)

-- An arrival that `recv` returns at, and what it returns.
pub data Answers : Arrival → Option (Outcome Error Message) → Type 0 where
  received : (m : Message) → Answers (incoming (some (ok m))) (some (ok m))
  failed :
      (e : Error)
      → e ≢ reset_without_closing_handshake
      → Answers (incoming (some (err e))) (some (err e))
  channel_closed : Answers (incoming none) (some (err connection_closed))
  sender_dropped : (value : Bool) → Answers (close_changed false value) none
  closed : (alive : Bool) → Answers (close_changed alive true) none

-- `recv` passes over the errors of a reset without a closing handshake and over changes of the
-- close channel that do not close it, returns at the first other arrival with the answer for it,
-- and leaves those behind it.
pub recv_lem :
    (quiet rest : List Arrival) {a : Arrival} {answer : Option (Outcome Error Message)}
    → All IsQuiet quiet
    → Answers a answer
    → recv (quiet ++ a ∷ rest) ≡ some (answer, rest)
unfolding recv
recv_lem [] rest q (received m) = refl
recv_lem [] rest q (failed e n) = ground arith
recv_lem [] rest q channel_closed = refl
recv_lem [] rest q (sender_dropped value) = refl
recv_lem [] rest q (closed true) = refl
recv_lem [] rest q (closed false) = refl
recv_lem (x ∷ quiet) rest q w = ground (arith, recv_lem quiet rest q.1 w)
