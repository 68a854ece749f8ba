-- ===== src/Egress/Shim.antt =====
-- proxy/cmd/egress-proxy/mcpshim.go: the MCP endpoint in front of a tool app. The JSON library is a
-- parameter; raw JSON stays a text.
pub mod Defaults
pub mod Tests
pub mod Replies
pub mod Calls
use attested_harness.Common.{
  ℕ, Bool, not, ◌&&◌, ◌||◌, Option, none, some, List, [], ◌∷◌, ◌++◌, map, ltb, leb, ◌==◌,
  if◌then◌else◌, length, take, any, all, Text, codes, same,
}
use attested_harness.Egress.{
  Headers, get, set, Inbound, Outbound, Upstream, refused, answer, is_empty, authorization,
  on_behalf_of,
}

-- `rpcRequest` without its version: the id and the parameters as raw JSON, empty where missing.
pub record Rpc : Type 0 where
  pub id : Text
  pub method : Text
  pub params : Text

-- The parameters of tools/call.
pub record ToolCall : Type 0 where
  pub name : Text
  pub arguments : Text

-- `upstreamTool`.
pub record Tool : Type 0 where
  pub name : Text
  pub description : Text
  pub input_schema : Text

-- What the shim uses of the JSON library, which decodes a value to `V`. Each decoder fails where
-- the library does; `object_of` also on a null.
pub record Codec (V : Type 0) : Type 0 where
  pub rpc_of : Text → Option Rpc
  pub call_of : Text → Option ToolCall
  pub tools_of : Text → Option (List Tool)
  pub object_of : Text → Option (List (Text × V))
  pub marshal : List (Text × V) → Option Text
  pub zero_value : V

-- The codes -32700, -32602, -32601 and -32000.
pub data Code : Type 0 where
  parse_error invalid_params method_not_found server_error : Code

-- Why an upstream leg failed, where it did: the client's error, a status with the start of the
-- body, or a catalogue that is none.
pub data Cause : Type 0 where
  own_cause : Cause
  client_error : (error : Text) → Cause
  bad_status : (status : ℕ) (excerpt : Text) → Cause
  unparsed : Cause

pub data Result : Type 0 where
  initialized : (server_name : Text) → Result
  pong : Result
  tools : List Tool → Result
  content : (text : Text) (is_error : Bool) → Result

-- A reply: a bare status, or a JSON-RPC message with status 200.
pub data Reply : Type 0 where
  bare : (status : ℕ) → Reply
  rpc_result : (id : Text) → Result → Reply
  rpc_error : (id : Text) → Code → Cause → Reply

-- The reply, with the requests that went out before it.
pub record Shimmed : Type 0 where
  pub reply : Reply
  pub sent : List Outbound

abbrev pub quiet : Reply → Shimmed
quiet reply = record { reply = reply; sent = [] }

-- A missing raw message is encoded as null.
abbrev pub shown_id : Text → Text
shown_id id = if is_empty id then codes "null" else id

pub data Method : Type 0 where
  initialize notified ping tools_list tools_call other : Method

unfoldable pub method_of : Text → Method
method_of m =
    if same m (codes "initialize")
    then initialize
    else if same m (codes "notifications/initialized") || same m (codes "notifications/cancelled")
    then notified
    else if same m (codes "ping")
    then ping
    else if same m (codes "tools/list")
    then tools_list
    else if same m (codes "tools/call")
    then tools_call
    else other

-- `documentedDefaults[server][tool]`, each field with the value 0.
unfoldable pub documented_defaults : (server tool : Text) → List Text
documented_defaults server tool =
    if same server (codes "web_search")
      && (same tool (codes "search") || same tool (codes "search-raw"))
    then codes "count" ∷ []
    else []

abbrev pub or_text : Text → Text → Text
or_text default s = if is_empty s then default else s

-- `truncate`.
unfoldable pub truncate : ℕ → Text → Text
truncate n s = if leb (length s) n then s else take n s ++ codes "…"

-- The headers of a request to the tool app.
abbrev add_unless_empty : Text → Text → Headers → Headers
add_unless_empty name value h = if is_empty value then h else set name value h

unfoldable pub tool_headers : (subject : Text) → Inbound → Headers → Headers
tool_headers subject r h =
    add_unless_empty on_behalf_of subject
      (add_unless_empty authorization (get authorization r.headers) h)

unfoldable pub catalogue_request : (subject : Text) → Inbound → (host : Text) → Outbound
unfolding tool_headers
catalogue_request subject r host = record {
  method = codes "GET";
  host = host;
  url = codes "https://" ++ (host ++ codes "/api/v1/mcp/tools");
  headers = tool_headers subject r [];
  body = [];
}

-- The request that `callTool` hands to the client; the tool's name is appended as it stands. A
-- redirect that the app answers with is followed by the client, and is not part of the model.
unfoldable pub call_request : (subject : Text) → Inbound → (host function args : Text) → Outbound
unfolding tool_headers
call_request subject r host function args = record {
  method = codes "POST";
  host = host;
  url = codes "https://" ++ (host ++ (codes "/api/v1/mcp/tools/" ++ function));
  headers = tool_headers subject r (set (codes "Content-Type") (codes "application/json") []);
  body = args;
}

abbrev is_success : ℕ → Bool
is_success status = leb 200 status && ltb status 300

abbrev with_schema : Tool → Tool
with_schema t = record t { input_schema = or_text (codes "{\"type\":\"object\"}") t.input_schema }

-- The reply to tools/list, from the client's answer.
abbrev catalogue_reply : Text → Option (List Tool) → Reply
catalogue_reply id none = rpc_error id server_error unparsed
catalogue_reply id (some ts) = rpc_result id (tools (map with_schema ts))

abbrev call_reply : Text → Upstream → Reply
call_reply id (refused e) = rpc_error id server_error (client_error e)
call_reply id (answer status h body (some e)) = rpc_error id server_error (client_error e)
call_reply id (answer status h body none) =
    rpc_result id (content (take 8388608 body) (not (is_success status)))

module _ {V : Type 0} (json : Codec V) where
  abbrev present : Text → List (Text × V) → Bool
  present field object = any (λ (entry : Text × V). same entry.0 field) object

  -- The loop of `applyDocumentedDefaults` over the fields.
  unfoldable pub fill : List Text → List (Text × V) → List (Text × V)
  fill [] object = object
  fill (field ∷ fields) object =
      fill fields (if present field object then object else (field, json.zero_value) ∷ object)

  abbrev pub all_present : List Text → List (Text × V) → Bool
  all_present fields object = all (λ field. present field object) fields

  abbrev marshal_or : Text → Option Text → Text
  marshal_or args none = args
  marshal_or args (some filled) = filled

  abbrev fill_parsed : List Text → Text → Option (List (Text × V)) → Text
  fill_parsed fields args none = args
  fill_parsed fields args (some object) =
      if all_present fields object
      then args
      else marshal_or args (json.marshal (fill fields object))

  abbrev fill_fields : List Text → Text → Text
  fill_fields [] args = args
  fill_fields (field ∷ fields) args = fill_parsed (field ∷ fields) args (json.object_of args)

  -- `applyDocumentedDefaults`.
  unfoldable pub apply_documented_defaults : (server tool args : Text) → Text
  unfolding documented_defaults fill
  apply_documented_defaults server tool args = fill_fields (documented_defaults server tool) args

  -- `fetchCatalogue` up to the reply.
  abbrev list_reply : Text → Upstream → Reply
  list_reply id (refused e) = rpc_error id server_error (client_error e)
  list_reply id (answer status h body (some e)) = rpc_error id server_error (client_error e)
  list_reply id (answer status h body none) =
      if status == 200
      then catalogue_reply id (json.tools_of (take 4194304 body))
      else rpc_error id server_error (bad_status status (truncate 200 (take 4194304 body)))

  module _ (client : Outbound → Upstream) (subject tool host : Text) where
    abbrev send_call : Inbound → Text → (function args : Text) → Shimmed
    send_call r id function args =
        let out = call_request subject r host function args in
        record { reply = call_reply id (client out); sent = out ∷ [] }

    abbrev call_tool : Inbound → Text → Option ToolCall → Shimmed
    call_tool r id none = quiet (rpc_error id invalid_params own_cause)
    call_tool r id (some c) =
        if is_empty c.name
        then quiet (rpc_error id invalid_params own_cause)
        else send_call r id c.name
            (apply_documented_defaults tool c.name (or_text (codes "{}") c.arguments))

    abbrev list_tools : Inbound → Text → Shimmed
    list_tools r id =
        let out = catalogue_request subject r host in
        record { reply = list_reply id (client out); sent = out ∷ [] }

    abbrev dispatch : Inbound → Rpc → Method → Shimmed
    dispatch r m initialize =
        quiet (rpc_result (shown_id m.id) (initialized (codes "privasys-egress-proxy/" ++ tool)))
    dispatch r m notified = quiet (bare 202)
    dispatch r m ping = quiet (rpc_result (shown_id m.id) pong)
    dispatch r m tools_list = list_tools r (shown_id m.id)
    dispatch r m tools_call = call_tool r (shown_id m.id) (json.call_of m.params)
    dispatch r m other =
        if is_empty m.id || same m.id (codes "null")
        then quiet (bare 202)
        else quiet (rpc_error m.id method_not_found own_cause)

    abbrev on_message : Inbound → Option Rpc → Shimmed
    on_message r none = quiet (rpc_error (codes "null") parse_error own_cause)
    on_message r (some m) = dispatch r m (method_of m.method)

    -- `mcpShim`, with the answer that the client would give to each request.
    unfoldable pub mcp_shim : Inbound → Shimmed
    unfolding method_of apply_documented_defaults catalogue_request call_request truncate
    mcp_shim r =
        if same r.method (codes "GET")
        then quiet (bare 405)
        else if same r.method (codes "DELETE")
        then quiet (bare 202)
        else if r.readable
        then on_message r (json.rpc_of (take 4194304 r.body))
        else quiet (bare 400)
