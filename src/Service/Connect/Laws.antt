-- ===== src/Service/Connect/Laws.antt =====
-- What a connection of the service carries.
use mathlib.Core.Path.{subst}
use fpd.Base.{
  ℕ, String, ◌≡◌, refl, sym, ◌∙◌, ap, ◌≢◌, arith, Bool, Option, Option-cases, inl, inr, none, some,
  [], ◌∷◌, length, All, Outcome, ok, err, panicked, ◌>>=◌, bind-eq-ok, string_eq, Profile, u32_mod,
  ◌≤◌, ◌<◌,
}
use fpd.Base.Dict
use fpd.Websocket.{Message, binary, Request, Response}
use fpd.Websocket
use fpd.Websocket.Connect.{Trace, connect}
use fpd.Websocket.Connect.Laws.{connect_bounds}
use fpd.Websocket.Connect.Origin.{connect-origin}
use fpd.Websocket.Settings
use fpd.Websocket.Settings.{Inner, Http, handle, handshake_request, initiate_connection}
use fpd.Websocket.Settings.Laws.{handshake_names, handshake_request_lem}
use fpd.Service.{Host, ProxyService}
use fpd.Service.Connect.{ConnId, no_conn_id, token_request, socket, checked, connected}

token_is_no_own : All (λ own. "fp-auth-token" ≢ own) handshake_names
token_is_no_own = (λ e. cc, (λ e. cc, (λ e. cc, (λ e. cc, (λ e. cc, tt)))))

last-token :
    (token : String)
    → Dict.last {K = String} "fp-auth-token" (("fp-auth-token", token) ∷ []) ≡ some token
unfolding string_eq
last-token token = refl

pair-first :
    (m : Outcome Websocket.Error Response) (request : Request) (f : Response → ConnId)
    {sent : Request} {conn_id : ConnId}
    → ◌>>=◌ {B = Request × ConnId} m (λ r. ok (request, f r)) ≡ ok (sent, conn_id)
    → request ≡ sent
pair-first (ok r) request f h = ground arith
pair-first (err e) request f h = cc
pair-first panicked request f h = cc

module _ (h : Http) (is_client_error : Response → Bool) (p : Profile)
    (to_str : String → Option String) (valid : Request → Bool) {H : Host}
    (service : ProxyService H) where
  -- The settings of the service's socket.
  abbrev IsSocket : Inner ConnId → Type 0
  IsSocket ws =
      (ws.request ≡ token_request service.endpoint service.token)
      × (ws.max_retries ≡ service.max_retries)

  socket-IsSocket :
      {ws : Inner ConnId}
      → socket h is_client_error p to_str valid service
          (token_request service.endpoint service.token)
        ≡ ok ws
      → IsSocket ws
  unfolding socket Settings.new Settings.build
  socket-IsSocket e = ground arith

  sent-token :
      (ws : Inner ConnId) (key : String) {sent : Request}
      → IsSocket ws
      → handshake_request h ws key ≡ ok sent
      → Dict.get "fp-auth-token" sent.headers ≡ some service.token
  sent-token ws key {sent} is e =
      let (m, u, a, b, c, d, f, kept) =
        handshake_request_lem h ws key {r = sent} "fp-auth-token" token_is_no_own e in
      kept
      ∙ ap (λ (r : Request). Dict.last "fp-auth-token" r.headers) is.0
      ∙ last-token service.token

  checked-ok :
      (o : Outcome Websocket.Error (Request × ConnId)) {sent : Request} {conn_id : ConnId}
      → checked h is_client_error p to_str valid service o ≡ ok (sent, conn_id)
      → (o ≡ ok (sent, conn_id)) × (conn_id.value ≢ none)
  checked-ok o e = ground arith

  initiated-request :
      (ws : Inner ConnId) (key : String) (network : Request → Outcome Websocket.Error Response)
      {sent : Request} {conn_id : ConnId}
      → initiate_connection h ws key network no_conn_id ≡ ok (sent, conn_id)
      → handshake_request h ws key ≡ ok sent
  unfolding initiate_connection
  initiated-request ws key network {sent} {conn_id} e =
      let answer =
        λ (s : ConnId) (response : Response). handle ws.connect_response_handler response s in
      let (request, is, more) =
        bind-eq-ok (handshake_request h ws key)
          (λ request. do response ← network request; ok (request, answer no_conn_id response)) e in
      is
      ∙ ap ok (
          pair-first (network request) request (answer no_conn_id) {sent = sent} {conn_id = conn_id}
            more)

  -- If the service's socket connects, within at most the service's number of retries, then the request
  -- that was accepted carried the service's token, and the answer to it gave the connection an id.
  pub connected-IsAuthenticated :
      (keys : ℕ → String) (network : ℕ → Request → Outcome Websocket.Error Response)
      {ws : Inner ConnId} {t : Trace (Request × ConnId)} {sent : Request} {conn_id : ConnId}
      → service.max_retries < u32_mod
      → socket h is_client_error p to_str valid service
          (token_request service.endpoint service.token)
        ≡ ok ws
      → connected h is_client_error p to_str valid service keys network ws
        ≡ some (t, ok (sent, conn_id))
      → (length t.sleeps ≤ service.max_retries)
        × (Dict.get "fp-auth-token" sent.headers ≡ some service.token)
        × (conn_id.value ≢ none)
  unfolding connected
  connected-IsAuthenticated keys network {ws} {t} {sent} {conn_id} small made e =
      let initiate =
        λ (attempt : ℕ). initiate_connection h ws (keys attempt) (network attempt) no_conn_id in
      let is = socket-IsSocket {ws = ws} made in
      elim (Option-cases
        (connect is_client_error p ws.max_retries ws.max_backoff_duration initiate)) [
          | inl out ↦ absurd (ground arith)
          | inr (trace, ends) ↦
              let same : trace ≡ t = ground arith in
              let (result_is, has_id) =
                checked-ok trace.result {sent = sent} {conn_id = conn_id} (ground arith) in
              let (k, initiated) =
                connect-origin is_client_error p ws.max_retries ws.max_backoff_duration initiate
                  {t = trace} {a = (sent, conn_id)} ends result_is in
              let few : ws.max_retries < u32_mod = subst (λ n. n < u32_mod) (sym is.1) small in
              let bounds =
                connect_bounds is_client_error ws.max_retries initiate p ws.max_backoff_duration
                  {t = trace} few ends in
              (
                subst (λ n. length t.sleeps ≤ n) is.1
                    (subst (λ (x : Trace (Request × ConnId)). length x.sleeps ≤ ws.max_retries) same
                      bounds.0),
                sent-token ws (keys k) is (
                    initiated-request ws (keys k) (network k) {sent = sent} {conn_id = conn_id}
                      initiated),
                has_id,
              )
        ]
