-- ===== src/Egress/Forward.antt =====
-- proxy/cmd/egress-proxy/main.go: `forward` and the routes of the loopback listener.
pub mod Laws
use attested_harness.Common.{
  some, [], same, Option, ◌∷◌, strip_prefix, cut, codes, Text, ℕ, Bool, true, false, ◌&&◌, ◌||◌,
  none, ◌++◌, ◌==◌, if◌then◌else◌,
}
use attested_harness.Egress.{
  set, get, is_empty, host_of, Outbound, authorization, del, Config, Inbound, Headers,
}

-- The path that `forward` appends to the host.
abbrev rooted : Text → Text
rooted [] = codes "/"
rooted (c ∷ path) = if c == b'/' then c ∷ path else b'/' ∷ c ∷ path

abbrev query_part : Text → Text
query_part [] = []
query_part (c ∷ q) = b'?' ∷ c ∷ q

abbrev pub target_url : Text → Text → Text → Text
target_url host path query = codes "https://" ++ (host ++ (rooted path ++ query_part query))

abbrev pub repro_opt_in : Text
repro_opt_in = codes "X-Privasys-Reproducibility"

-- `injectReproOptIn`.
unfoldable pub inject_repro_opt_in : Headers → Headers
inject_repro_opt_in h = if is_empty (get repro_opt_in h) then set repro_opt_in (codes "1") h else h

abbrev pub forwarded_headers : Bool → Headers → Headers
forwarded_headers true h = inject_repro_opt_in (del (codes "Accept-Encoding") h)
forwarded_headers false h = del (codes "Accept-Encoding") h

-- The request that `forward` hands to the client. The client is Go's, with its redirect policy: a
-- redirect that the peer answers with is followed by the client, and is not part of the model.
unfoldable pub forward_request : Inbound → (host path : Text) → (repro : Bool) → Outbound
unfolding inject_repro_opt_in
forward_request r host path repro = record {
  method = r.method;
  host = host;
  url = target_url host path r.raw_query;
  headers = forwarded_headers repro r.headers;
  body = r.body;
}

-- What a handler does: a reply of the proxy's own with a status; the request to forward, and
-- whether its stream is scanned; or a message for the MCP shim of a tool.
pub data Handled : Type 0 where
  own_reply : (status : ℕ) → Handled
  redirect : (path : Text) → Handled
  forwarded : Outbound → (repro : Bool) → Handled
  shimmed : (tool host : Text) → Inbound → Handled

abbrev without_bearer : Bool → Inbound → Inbound
without_bearer true r = record r { headers = del authorization r.headers }
without_bearer false r = r

-- The handler of /model/.
unfoldable pub model_leg : Config → Inbound → (path : Text) → Handled
unfolding forward_request
model_leg cfg r path =
    if is_empty cfg.model_host
    then own_reply 501
    else forwarded (forward_request (without_bearer cfg.on_platform r) cfg.model_host path true)
        true

abbrev name_and_path : Text → Option (Text × Text) → Text × Text
name_and_path rest none = (rest, [])
name_and_path rest (some (name, path)) = (name, path)

abbrev tool_to : Config → Inbound → (name host path : Text) → Handled
tool_to cfg r name host path =
    if is_empty host
    then own_reply 404
    else if same path (codes "mcp")
    then shimmed name host r
    else forwarded (forward_request r host (b'/' ∷ path) false) false

-- The handler of /tool/, on the path behind it.
unfoldable pub tool_leg : Config → Inbound → (rest : Text) → Handled
unfolding forward_request
tool_leg cfg r rest =
    let (name, path) = name_and_path rest (cut (codes "/") rest) in
    tool_to cfg r name (host_of name cfg.tool_hosts) path

abbrev reads : Text → Bool
reads method = same method (codes "GET") || same method (codes "HEAD")

abbrev or_tool : Config → Inbound → Option Text → Handled
or_tool cfg r (some rest) = tool_leg cfg r rest
or_tool cfg r none =
    if same r.path (codes "/model") || same r.path (codes "/tool")
    then redirect (r.path ++ codes "/")
    else if reads r.method && same r.path (codes "/healthz")
    then own_reply 200
    else own_reply 404

abbrev or_model : Config → Inbound → Option Text → Handled
or_model cfg r (some path) = model_leg cfg r (b'/' ∷ path)
or_model cfg r none = or_tool cfg r (strip_prefix (codes "/tool/") r.path)

-- The routes of the loopback listener, on a path that the mux has cleaned.
unfoldable pub handle : Config → Inbound → Handled
unfolding model_leg tool_leg
handle cfg r = or_model cfg r (strip_prefix (codes "/model/") r.path)
