-- ===== src/Shell/Route.antt =====
-- web/privasys-shell.js, installSealedTransport: which requests and sockets go through the sealed
-- session. The browser's URL parser is a parameter; it fails where the constructor throws.
pub mod Laws
use attested_harness.Common.{
  ◌-◌, ℕ, Bool, false, not, ◌&&◌, Option, none, some, List, ◌++◌, map, any, Text, codes, same, leb,
  if◌then◌else◌,
}

pub record Url : Type 0 where
  pub pathname : Text
  pub search : Text

abbrev pub mux_path : Text
mux_path = codes "/api/remote.mux"

abbrev pub sealed_ws_subprotocol : Text
sealed_ws_subprotocol = codes "privasys.sealed.v1"

-- The second argument of `new WebSocket`: missing, one text, or a list.
pub data Protocols : Type 0 where
  no_protocols : Protocols
  one : Text → Protocols
  many : List Text → Protocols

-- `carriesSealedProto`: an empty text counts as missing, and no element of a list is it.
unfoldable pub carries_sealed_proto : Protocols → Bool
carries_sealed_proto no_protocols = false
carries_sealed_proto (one p) = same p sealed_ws_subprotocol
carries_sealed_proto (many ps) = any (λ p. same p sealed_ws_subprotocol) ps

abbrev path_is_mux : Option Url → Bool
path_is_mux none = false
path_is_mux (some url) = same url.pathname mux_path

-- `init` of a fetch: its method and abort signal, missing where they are falsy, and its body,
-- missing where it is null. A signal is named by a number.
pub record Init : Type 0 where
  pub method : Option Text
  pub body : Option Text
  pub signal : Option ℕ

-- The call `session.request(method, path, body, opts)`.
pub record Request : Type 0 where
  pub method : Text
  pub path : Text
  pub body : Option Text
  pub signal : Option ℕ

-- `toUpperCase`, on the ASCII letters of a method.
unfoldable pub upper : ℕ → ℕ
upper c = if leb b'a' c && leb c b'z' then c - 32 else c

abbrev method_of : Option Text → Text
method_of none = codes "GET"
method_of (some m) = m

abbrev request_to : Url → Init → Request
request_to url init = record {
  method = map upper (method_of init.method);
  path = url.pathname ++ url.search;
  body = init.body;
  signal = init.signal;
}

abbrev request_of : Option Url → Init → Option Request
request_of none init = none
request_of (some url) init = some (request_to url init)

-- The first argument of a fetch.
pub data Input : Type 0 where
  by_text : Text → Input
  by_url : Url → Input

-- What `new WebSocket` makes on the page: the adapter over a session, or the browser's own socket.
pub data Made (S : Type 0) : Type 0 where
  sealed_adapter : (session : S) (path : Text) → Made S
  native_socket : (url : Text) → Protocols → Made S

module _ (parse : Text → Option Url) where
  -- `isMux`.
  unfoldable pub is_mux : Text → Bool
  is_mux u = path_is_mux (parse u)

  abbrev url_of : Input → Option Url
  url_of (by_text t) = parse t
  url_of (by_url url) = some url

  -- `sealedFetch` up to the request that it enqueues; none where the URL is refused.
  unfoldable pub sealed_fetch : Input → Init → Option Request
  unfolding upper
  sealed_fetch input init = request_of (url_of input) init

  -- `InterceptingWebSocket` of one installation, over the constructor that it found.
  unfoldable pub intercept :
      {S : Type 0} → S → (Text → Protocols → Made S) → Text → Protocols → Made S
  unfolding is_mux carries_sealed_proto
  intercept session native url protocols =
      if is_mux url && not (carries_sealed_proto protocols)
      then sealed_adapter session mux_path
      else native url protocols
