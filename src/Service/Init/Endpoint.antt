-- ===== src/Service/Init/Endpoint.antt =====
-- The endpoint that `ProxyService::new` of src/tasks/service.rs makes, and the call of `init` with it.
use fpd.Base.{
  ℕ, zero, suc, ◌-◌, ◌≤◌, ◌≡◌, refl, ap, arith, ◌∙◌, String, Bool, true, false, Option, some, List,
  [], ◌∷◌, ◌++◌, length, eqb, Outcome, ok, ◌>>=◌, unwrap, ◌⊎◌, if◌then◌else◌, bind-ok,
}
use fpd.Providers.{Text}
use fpd.Service.{Host, ProxyDataSource, ProxyService}
use fpd.Service.Init.{init}

-- What the code uses of the crate url.
pub record UrlCrate : Type 1 where
  pub Url : Type 0
  pub join : Url → Text → Option Url
  pub scheme : Url → Text
  pub set_scheme : Url → Text → Option Url
  pub as_str : Url → String

-- The fields of `ProxyToken` as they are displayed.
pub record ProxyToken : Type 0 where
  pub workspace_id : Text
  pub proxy_name : Text
  pub token : String

-- `str::starts_with`
unfoldable pub starts_with : Text → Text → Bool
starts_with [] text = true
starts_with (p ∷ pattern) [] = false
starts_with (p ∷ pattern) (b ∷ text) = if eqb p b then starts_with pattern text else false

-- `str::replace` from the place at which `skip` bytes of a match are still to be passed over.
unfoldable pub replace_from : Text → Text → ℕ → Text → Text
unfolding starts_with
replace_from pattern to skip [] = []
replace_from pattern to (suc skip) (b ∷ text) = replace_from pattern to skip text
replace_from pattern to zero (b ∷ text) =
    let matched = replace_from pattern to (length pattern - 1) text in
    let unmatched = replace_from pattern to 0 text in
    if starts_with pattern (b ∷ text) then to ++ matched else b ∷ unmatched

unfoldable pub replace : Text → Text → Text → Text
unfolding replace_from
replace text pattern to = replace_from pattern to 0 text

abbrev pub http : Text
http = b'h' ∷ b't' ∷ b't' ∷ b'p' ∷ []

abbrev pub https : Text
https = b'h' ∷ b't' ∷ b't' ∷ b'p' ∷ b's' ∷ []

abbrev pub ws : Text
ws = b'w' ∷ b's' ∷ []

abbrev pub wss : Text
wss = b'w' ∷ b's' ∷ b's' ∷ []

abbrev workspaces : Text
workspaces =
    b'/' ∷ b'a' ∷ b'p' ∷ b'i' ∷ b'/' ∷ b'w' ∷ b'o' ∷ b'r' ∷ b'k' ∷ b's' ∷ b'p' ∷ b'a' ∷ b'c' ∷ b'e'
    ∷ b's' ∷ b'/' ∷ []

abbrev proxies : Text
proxies = b'/' ∷ b'p' ∷ b'r' ∷ b'o' ∷ b'x' ∷ b'i' ∷ b'e' ∷ b's' ∷ b'/' ∷ []

-- "/api/workspaces/{}/proxies/{}/ws"
abbrev pub endpoint_path : ProxyToken → Text
endpoint_path token =
    workspaces ++ (token.workspace_id ++ (proxies ++ (token.proxy_name ++ (b'/' ∷ ws))))

module _ (U : UrlCrate) {E : Type 0} where
  unfoldable pub to_websocket : U.Url → Outcome E U.Url
  unfolding replace starts_with
  to_websocket url =
      if starts_with http (U.scheme url)
      then unwrap (U.set_scheme url (replace (U.scheme url) http ws))
      else ok url

  unfoldable pub endpoint : U.Url → ProxyToken → Outcome E U.Url
  unfolding to_websocket
  endpoint api_base token = do
    joined ← unwrap (U.join api_base (endpoint_path token))
    to_websocket joined

  -- `init`, with the endpoint that `new` makes for it.
  module _ (H : Host) (read : String → String ⊎ List ℕ)
      (compile : List ℕ → String ⊎ H.Runtime) where
    unfoldable pub init_at :
        U.Url
        → ProxyToken
        → List ProxyDataSource
        → (max_retries : ℕ) (listen_address : Option String) (status_check_interval : ℕ)
        → Outcome E (ProxyService H)
    unfolding endpoint init
    init_at api_base token sources max_retries listen_address status_check_interval = do
      url ← endpoint api_base token
      ok (
          init H read compile
            (record {
              endpoint = U.as_str url;
              token = token.token;
              max_retries = max_retries;
              listen_address = listen_address;
              status_check_interval = status_check_interval;
            })
            sources)

-- The scheme of the API, and that of its WebSocket.
pub data Speaks : Text → Text → Type 0 where
  plain : Speaks http ws
  secure : Speaks https wss
  plain_already : Speaks ws ws
  secure_already : Speaks wss wss

-- What the crate says of these schemes, all of which are special, so that an address of one has a host
-- and a path: a path that begins with a slash and a small letter is joined, and the scheme stays; one
-- scheme can be put in another's place, and nothing else changes.
pub record KeepsSchemes (U : UrlCrate) : Type 1 where
  pub Rest : Type 0
  pub rest : U.Url → Rest
  pub joins :
      (url : U.Url) (letter : ℕ) (path : Text) {old new : Text}
      → Speaks old new
      → U.scheme url ≡ old
      → b'a' ≤ letter
      → letter ≤ b'z'
      → (joined : U.Url) × (U.join url (b'/' ∷ letter ∷ path) ≡ some joined)
        × (U.scheme joined ≡ U.scheme url)
  pub sets :
      (url : U.Url) {old new : Text}
      → Speaks old new
      → U.scheme url ≡ old
      → (changed : U.Url) × (U.set_scheme url new ≡ some changed)
        × (U.scheme changed ≡ new)
        × (rest changed ≡ rest url)

module _ (U : UrlCrate) (k : KeepsSchemes U) {E : Type 0} where
  abbrev ComesTo : U.Url → Text → Outcome E U.Url → Type 0
  ComesTo joined new m =
      (url : U.Url) × (m ≡ ok url) × (U.scheme url ≡ new) × (k.rest url ≡ k.rest joined)

  to_websocket-ComesTo :
      (joined : U.Url) {old new : Text}
      → Speaks old new
      → U.scheme joined ≡ old
      → ComesTo joined new (to_websocket U joined)
  unfolding to_websocket
  to_websocket-ComesTo joined plain e =
      let (url, set, is_ws, same) = k.sets joined plain e in
      (url, rw e (ap unwrap set), is_ws, same)
  to_websocket-ComesTo joined secure e =
      let (url, set, is_wss, same) = k.sets joined secure e in
      (url, rw e (ap unwrap set), is_wss, same)
  to_websocket-ComesTo joined plain_already e = (joined, rw e refl, e, refl)
  to_websocket-ComesTo joined secure_already e = (joined, rw e refl, e, refl)

  -- Where the address of the API has one of the schemes http, https, ws and wss, the endpoint is made
  -- without a panic; it has the scheme ws in place of http, wss in place of https, and the given one
  -- otherwise, and but for the scheme it is the address joined with the path of the workspace's proxy.
  pub endpoint-Speaks :
      (api_base : U.Url) (token : ProxyToken) {old new : Text}
      → Speaks old new
      → U.scheme api_base ≡ old
      → (joined : U.Url) × (U.join api_base (endpoint_path token) ≡ some joined)
        × ComesTo joined new (endpoint U api_base token)
  unfolding endpoint
  endpoint-Speaks api_base token speaks e =
      let (joined, join_is, kept) = k.joins api_base b'a' _ speaks e (omega arith) (omega arith) in
      let (url, made, scheme, same) = to_websocket-ComesTo joined speaks (kept ∙ e) in
      (joined, join_is, (url, bind-ok (to_websocket U) (ap unwrap join_is) ∙ made, scheme, same))
