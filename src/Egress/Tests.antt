-- ===== src/Egress/Tests.antt =====
-- The egress proxy at concrete requests. The JSON library of these tests takes a message's text for
-- the arguments of a call of `search`.
use attested_harness.Common.{
  All, ℕ, ◌≡◌, refl, true, false, none, some, [], ◌∷◌, Text, codes, suc, ◌≤◌, ◌↔◌, Option, List,
  arith, length, take, split, cut,
}
use attested_harness.Egress.{
  is_go_space, Config, Inbound, Outbound, Upstream, answer, on_behalf_of, get, load_tool_hosts,
  authorization,
}
use attested_harness.Egress.Forward.{
  shimmed, own_reply, handle, model_leg, tool_leg, forward_request,
}
use attested_harness.Egress.Forward.Laws.{Allowed, handle-Allowed}
use attested_harness.Egress.Shim.{Codec, rpc_result, content, mcp_shim}
use attested_harness.Egress.Shim.Calls.{AllProper, mcp_shim-AllProper}
use attested_harness.Egress.Shim.Replies.{Replied, mcp_shim-Replied}
use attested_harness.Egress.Ingress.{Request, serve, serve_all}
use attested_harness.Egress.Ingress.Laws.{
  IsServed, serve-IsServed, IsLatest, asserted_in, tool_subject-IsLatest,
}
use attested_harness.Egress.Scan.{
  read, walk, is_negative_zero, is_not_finite, Body, Json, number, array, object, item, no_items,
  field, no_fields, new_repro_scan_body, copy_body, lossy_keys,
}
use attested_harness.Egress.Scan.Copy.{copy_body-same}
use attested_harness.Egress.Scan.Bounds.{findings_in, blocks_in, copy_body-few}
use attested_harness.Egress.Scan.Numbers.{IsNumber, Number}
use attested_harness.Egress.Scan.Lossless.{Spelled, Lossless, lossy_keys-nil}
use attested_harness.Egress.Ingress

abbrev cfg : Config
cfg = record {
  model_host = codes "model";
  tool_hosts = (codes "drive", codes "drive.apps") ∷ [];
  on_platform = true;
}

abbrev post : Text → Inbound
post path = record {
  method = codes "POST";
  path = path;
  raw_query = codes "q=1";
  headers = (authorization, codes "Bearer t") ∷ (on_behalf_of, codes "mallory") ∷ [];
  body = codes "{}";
  readable = true;
}

tested : Unit {0}
unfolding handle model_leg tool_leg forward_request load_tool_hosts serve serve_all mcp_shim
tested = tt

hosts_test :
    load_tool_hosts (codes " drive=a.b , =x,web=,n=h=i,drive=c")
    ≡ (codes "drive", codes "c") ∷ (codes "n", codes "h=i") ∷ (codes "drive", codes "a.b") ∷ []
unfolding load_tool_hosts attested_harness.Common.split
hosts_test = refl

unknown_tool_test : handle cfg (post (codes "/tool/mail/mcp")) ≡ own_reply 404
unfolding tested
unknown_tool_test = refl

mcp_test :
    handle cfg (post (codes "/tool/drive/mcp"))
    ≡ shimmed (codes "drive") (codes "drive.apps") (post (codes "/tool/drive/mcp"))
unfolding tested
mcp_test = refl

handle-Allowed_example :
    Allowed cfg (post (codes "/model/v1/chat")) (handle cfg (post (codes "/model/v1/chat")))
handle-Allowed_example = handle-Allowed cfg (post (codes "/model/v1/chat"))

abbrev json : Codec Text
json = record {
  rpc_of = λ t. some (record { id = codes "7"; method = codes "tools/call"; params = t });
  call_of = λ t. some (record { name = codes "search"; arguments = t });
  tools_of = λ t. none;
  object_of = λ t. some [];
  marshal = λ object. some (codes "{\"count\":0}");
  zero_value = codes "0";
}

abbrev client : Outbound → Upstream
client o = answer 200 [] o.body none

mcp_shim-AllProper_example :
    AllProper
      (codes "alice")
      (codes "web.apps")
      (post [])
      json
      client
      (codes "web_search")
      (mcp_shim json client (codes "alice") (codes "web_search") (codes "web.apps") (post []))
mcp_shim-AllProper_example =
    mcp_shim-AllProper (codes "alice") (codes "web.apps") (post []) json client (codes "web_search")

-- The defaults are filled in, and the upstream's answer is the content.
call_test :
    (mcp_shim json client (codes "alice") (codes "web_search") (codes "web.apps") (post [])).reply
    ≡ rpc_result (codes "7") (content (codes "{\"count\":0}") false)
unfolding tested
call_test = refl

mcp_shim-Replied_example :
    Replied
      (json.rpc_of (take 4194304 (codes "{}")))
      (mcp_shim json client (codes "alice") (codes "web_search") (codes "web.apps") (post []))
mcp_shim-Replied_example =
    mcp_shim-Replied json client (codes "alice") (codes "web_search") (codes "web.apps") (post [])
      refl refl

-- A request on the platform's port, for a director that changes nothing and a dsh that answers all.
abbrev from_browser : Text → Text → Request
from_browser path sub = record {
  method = codes "GET";
  path = path;
  host = codes "1.2.3.4:80";
  headers =
      (codes "Origin", codes "https://privasys.id")
      ∷ (codes "X-Privasys-Sub", sub)
      ∷ (codes "Sec-Fetch-Site", codes "cross-site")
      ∷ [];
}

abbrev base : Request → Request
base r = r

abbrev dsh : Request → Option Ingress.Reply
dsh r = some (record { status = 200; body = r.host })

serve-IsServed_example :
    IsServed base
      (codes "app")
      dsh
      (from_browser (codes "/api/x") (codes "alice"))
      []
      (serve base (codes "app") dsh (from_browser (codes "/api/x") (codes "alice")) [])
serve-IsServed_example =
    serve-IsServed base (codes "app") dsh (from_browser (codes "/api/x") (codes "alice")) []

abbrev visits : List Request
visits =
    from_browser (codes "/a") (codes "alice")
    ∷ from_browser (codes "/health") (codes "bob")
    ∷ from_browser (codes "/b") []
    ∷ []

visits_test : serve_all base (codes "app") dsh visits [] ≡ codes "alice"
unfolding tested
visits_test = refl

tool_subject-IsLatest_example :
    All
      (λ (o : Outbound).
        IsLatest (asserted_in base (codes "app") dsh visits []) [] (get on_behalf_of o.headers))
      (mcp_shim json client
        (serve_all base (codes "app") dsh visits [])
        (codes "web_search")
        (codes "web.apps")
        (post [])).sent
tool_subject-IsLatest_example =
    tool_subject-IsLatest base (codes "app") dsh json client (codes "web_search") (codes "web.apps")
      visits (post [])

-- A decoder that takes every payload for the same value.
abbrev minus_zero : Text
minus_zero = codes "-0.0e5"

abbrev sample : Json
sample = object (field (codes "a") (array (item (number (codes "12")) no_items)) no_fields)

abbrev decode : Text → Option Json
decode s = some (array (item (number minus_zero) (item (number minus_zero) no_items)))

abbrev block_of : Text → Option (Option Text)
block_of s = some (some s)

abbrev stream : Text
stream = codes "data: 1\ndata: 2\ndata: \"reproducibility\"\ndata: 3"

abbrev counts : Body → List ℕ
counts b = findings_in b.log ∷ blocks_in b.log ∷ b.lossy_found ∷ []

copied_test :
    counts (copy_body decode block_of 60 7 (new_repro_scan_body stream)).1 ≡ 3 ∷ 1 ∷ 3 ∷ []
unfolding copy_body read walk is_negative_zero is_not_finite is_go_space cut
copied_test = refl

copy_body-same_example :
    (copy_body decode block_of (suc (length stream)) 7 (new_repro_scan_body stream)).0
    ≡ (stream, true)
copy_body-same_example = copy_body-same decode block_of 7 stream (omega arith)

copy_body-few_example :
    let log = (copy_body decode block_of 60 7 (new_repro_scan_body stream)).1.log in
    (findings_in log ≤ 3) × (blocks_in log ≤ 1)
copy_body-few_example = copy_body-few decode block_of 60 7 stream

abbrev twelve : Number
twelve = record { negative = false; whole = 1 ∷ 2 ∷ []; fraction = none; exponent = none }

twelve_is : IsNumber twelve
twelve_is = (λ e. cc, (omega arith, (omega arith, tt)), tt, tt)

lossy_keys-nil_example : (lossy_keys (λ s. some sample) block_of stream ≡ []) ↔ Lossless sample
unfolding Spelled
lossy_keys-nil_example =
    lossy_keys-nil (λ s. some sample) block_of stream sample refl
      (((twelve, twelve_is, refl), tt), tt)
