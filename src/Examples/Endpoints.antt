-- ===== src/Examples/Endpoints.antt =====
-- The theorem on the endpoint in src/tasks/service.rs at a concrete address.
use fpd.Base.{
  ℕ, ◌≤◌, ◌≡◌, refl, arith, Bool, true, false, not, ◌&&◌, ◌||◌, Option, none, some, [], ◌∷◌, ok,
  eqb, ◌==◌, bytes_eq, if◌then◌else◌,
}
use fpd.Providers.{Text}
use fpd.Service.Init.Endpoint
use fpd.Service.Init.Endpoint.{
  UrlCrate, ProxyToken, https, wss, Speaks, plain, secure, plain_already, secure_already,
  KeepsSchemes, endpoint_path, endpoint, endpoint-Speaks,
}

-- An address, with an authority if it may be a base.
record Address : Type 0 where
  scheme : Text
  authority : Option Text
  path : Text

abbrev is_special : Text → Bool
is_special s = s == Endpoint.http || s == https || s == Endpoint.ws || s == wss

abbrev join_to : Address → Text → Option Address
join_to base (slash ∷ letter ∷ path) =
    if is_special base.scheme && eqb slash b'/' && not (eqb letter b'/')
    then some (record base { path = slash ∷ letter ∷ path })
    else none
join_to base path = none

-- A scheme takes the place of another only if both are special.
abbrev crate : UrlCrate
crate = record {
  Url = Address;
  join = join_to;
  scheme = λ url. url.scheme;
  set_scheme = λ url scheme.
      if is_special url.scheme && is_special scheme
      then some (record url { scheme = scheme })
      else none;
  as_str = λ url. "url";
}

Speaks-is_special :
    {old new : Text} → Speaks old new → (is_special old ≡ true) × (is_special new ≡ true)
unfolding bytes_eq
Speaks-is_special plain = (refl, refl)
Speaks-is_special secure = (refl, refl)
Speaks-is_special plain_already = (refl, refl)
Speaks-is_special secure_already = (refl, refl)

not_slash : (letter : ℕ) → b'a' ≤ letter → eqb letter b'/' ≡ false
not_slash letter h = ground arith

crate-KeepsSchemes : KeepsSchemes crate
crate-KeepsSchemes = record {
  Rest = Option Text × Text;
  rest = λ url. (url.authority, url.path);
  joins = λ url letter path {old} {new} speaks e low high. (
    record url { path = b'/' ∷ letter ∷ path },
    rw (e, (Speaks-is_special speaks).0, not_slash letter low) refl,
    refl,
  );
  sets = λ url {old} {new} speaks e. (
    record url { scheme = new },
    rw (e, (Speaks-is_special speaks).0, (Speaks-is_special speaks).1) refl,
    refl,
    refl,
  );
}

-- An address that cannot be a base, and a path that names another host.
joins_no_mail :
    (join_to (record { scheme = b'm' ∷ []; authority = none; path = [] }) (b'/' ∷ b'a' ∷ []) ≡ none)
    × (join_to
          (record { scheme = https; authority = some (b'h' ∷ []); path = [] })
          (b'/' ∷ b'/' ∷ [])
        ≡ none)
unfolding bytes_eq
joins_no_mail = (refl, refl)

abbrev token : ProxyToken
token = record { workspace_id = b'w' ∷ []; proxy_name = b'p' ∷ []; token = "t" }

abbrev api_base : Address
api_base = record { scheme = https; authority = some (b'h' ∷ []); path = b'/' ∷ [] }

endpoint-is :
    endpoint crate {E = Unit {0}} api_base token
    ≡ ok (record api_base { scheme = wss; path = endpoint_path token })
unfolding endpoint bytes_eq
endpoint-is = refl

endpoint-Speaks_example :
    (joined : Address) × (crate.join api_base (endpoint_path token) ≡ some joined)
    × ((url : Address) × (endpoint crate {E = Unit {0}} api_base token ≡ ok url)
        × (url.scheme ≡ wss)
        × (crate-KeepsSchemes.rest url ≡ crate-KeepsSchemes.rest joined))
endpoint-Speaks_example = endpoint-Speaks crate crate-KeepsSchemes api_base token secure refl
