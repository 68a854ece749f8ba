-- ===== src/Egress/Shim/Calls.antt =====
-- proxy/cmd/egress-proxy/mcpshim.go: the requests that the MCP endpoint sends to the tool app.
use attested_harness.Common.{
  ◌≤◌, ◌≡◌, ◌≢◌, ◌⊎◌, ◌∷◌, ap, append_assoc, refl, inl, inr, Bool, true, false, ◌||◌, Option, none,
  some, [], ◌++◌, arith, if◌then◌else◌, Bool-cases, length, All, Text, codes, same, sym, ◌∙◌, take,
}
use attested_harness.Egress.{
  Headers, get, set, Inbound, Outbound, Upstream, is_empty, authorization, on_behalf_of,
}
use attested_harness.Egress.Lookup.{get-set_self, get-set_other, nil_of_is_empty}
use attested_harness.Egress.Shim.{
  bare, Rpc, ToolCall, Codec, Shimmed, quiet, Method, initialize, notified, ping, tools_list,
  tools_call, other, method_of, call_tool, dispatch, on_message, mcp_shim, tool_headers,
  add_unless_empty, call_request, catalogue_request,
}

get-add_self :
    (name value : Text) (h : Headers)
    → get name h ≡ []
    → get name (add_unless_empty name value h) ≡ value
get-add_self name value h e = elim (Bool-cases (is_empty value)) [
  | inl f ↦ rw f (e ∙ sym (nil_of_is_empty value f))
  | inr f ↦ rw f (get-set_self name value h)
]

get-add_other :
    (name key value : Text) (h : Headers)
    → same name key ≡ false
    → get key (add_unless_empty name value h) ≡ get key h
get-add_other name key value h ne = elim (Bool-cases (is_empty value)) [
  | inl f ↦ rw f refl
  | inr f ↦ rw f (get-set_other name key value h ne)
]

ne_nil : (s : Text) → is_empty s ≡ false → s ≢ []
ne_nil [] h e = cc
ne_nil (c ∷ s) h e = cc

module _ (subject : Text) (host : Text) (r : Inbound) where
  tool_headers-names :
      (h : Headers)
      → get on_behalf_of h ≡ []
      → get authorization h ≡ []
      → (get on_behalf_of (tool_headers subject r h) ≡ subject)
        × (get authorization (tool_headers subject r h) ≡ get authorization r.headers)
  unfolding tool_headers
  tool_headers-names h e f =
      let with_auth = add_unless_empty authorization (get authorization r.headers) h in
      (
        get-add_self on_behalf_of subject with_auth
            (get-add_other authorization on_behalf_of (get authorization r.headers) h refl ∙ e),
        get-add_other on_behalf_of authorization subject with_auth refl
            ∙ get-add_self authorization (get authorization r.headers) h f,
      )

  module _ {V : Type 0} (json : Codec V) where
    -- The message asks for the catalogue.
    abbrev pub Lists : Type 0
    Lists =
        (m : Rpc) × (json.rpc_of (take 4194304 r.body) ≡ some m) × (method_of m.method ≡ tools_list)

    -- The message calls the tool of this name.
    abbrev pub Calls : Text → Type 0
    Calls name =
        (m : Rpc) × (c : ToolCall) × (json.rpc_of (take 4194304 r.body) ≡ some m)
        × (method_of m.method ≡ tools_call)
        × (json.call_of m.params ≡ some c)
        × (c.name ≡ name)

    abbrev pub tools_url : Text
    tools_url = codes "https://" ++ (host ++ codes "/api/v1/mcp/tools")

    -- A request that may be made for the tool app: it goes to the app's host, either to the
    -- catalogue, which the message asks for, or behind a slash to the name of the tool that the
    -- message calls; it names the subject that is bound, and nobody where none is; and it carries
    -- the caller's own authorization, if there was one.
    abbrev pub Proper : Outbound → Type 0
    Proper o =
        (o.host ≡ host)
        × ((Lists × (o.method ≡ codes "GET") × (o.url ≡ tools_url))
            ⊎ ((name : Text) × Calls name
                × (name ≢ [])
                × (o.method ≡ codes "POST")
                × (o.url ≡ tools_url ++ (b'/' ∷ name))))
        × (get on_behalf_of o.headers ≡ subject)
        × (get authorization o.headers ≡ get authorization r.headers)

    catalogue_request-Proper : Lists → Proper (catalogue_request subject r host)
    unfolding catalogue_request
    catalogue_request-Proper asked =
        let (names, auth) = tool_headers-names [] refl refl in
        (refl, inl (asked, refl, refl), names, auth)

    call_request-Proper :
        (name args : Text) → Calls name → name ≢ [] → Proper (call_request subject r host name args)
    unfolding call_request
    call_request-Proper name args called named =
        let (names, auth) =
          tool_headers-names (set (codes "Content-Type") (codes "application/json") []) refl refl in
        (refl, inr (name, called, named, refl, behind_slash name), names, auth)
      where
        behind_slash :
            (name : Text)
            → codes "https://" ++ (host ++ (codes "/api/v1/mcp/tools/" ++ name))
              ≡ tools_url ++ (b'/' ∷ name)
        behind_slash name =
            ap (λ t. codes "https://" ++ t)
              (sym (append_assoc host (codes "/api/v1/mcp/tools") (b'/' ∷ name)))

    module _ (client : Outbound → Upstream) (tool : Text) where
      -- The requests of one message: at most one, and a proper one.
      abbrev pub AllProper : Shimmed → Type 0
      AllProper s = All Proper s.sent × (length s.sent ≤ 1)

      if-AllProper :
          (b : Bool) (s t : Shimmed) → AllProper s → AllProper t → AllProper (if b then s else t)
      if-AllProper true s t hs ht = hs
      if-AllProper false s t hs ht = ht

      call_tool-AllProper :
          (m : Rpc) (id : Text) (o : Option ToolCall)
          → json.rpc_of (take 4194304 r.body) ≡ some m
          → method_of m.method ≡ tools_call
          → json.call_of m.params ≡ o
          → AllProper (call_tool json client subject tool host r id o)
      call_tool-AllProper m id none e k h = (tt, omega arith)
      call_tool-AllProper m id (some c) e k h = elim (Bool-cases (is_empty c.name)) [
        | inl unnamed ↦ rw unnamed (tt, omega arith)
        | inr named ↦ rw named (
          (call_request-Proper c.name _ (m, c, e, k, h, refl) (ne_nil c.name named), tt),
          omega arith,
        )
      ]

      dispatch-AllProper :
          (m : Rpc) (k : Method)
          → json.rpc_of (take 4194304 r.body) ≡ some m
          → method_of m.method ≡ k
          → AllProper (dispatch json client subject tool host r m k)
      dispatch-AllProper m initialize e k = (tt, omega arith)
      dispatch-AllProper m notified e k = (tt, omega arith)
      dispatch-AllProper m ping e k = (tt, omega arith)
      dispatch-AllProper m tools_list e k = ((catalogue_request-Proper (m, e, k), tt), omega arith)
      dispatch-AllProper m tools_call e k = call_tool-AllProper m _ (json.call_of m.params) e k refl
      dispatch-AllProper m other e k =
          if-AllProper (is_empty m.id || same m.id (codes "null")) (quiet _) (quiet _)
            (tt, omega arith) (tt, omega arith)

      post_message-AllProper :
          (o : Option Rpc)
          → json.rpc_of (take 4194304 r.body) ≡ o
          → AllProper (on_message json client subject tool host r o)
      post_message-AllProper none e = (tt, omega arith)
      post_message-AllProper (some m) e = dispatch-AllProper m (method_of m.method) e refl

      -- Whatever the message is, at most one request is handed to the client for it: for the
      -- catalogue of the tool app, where the message asks for that, or for the tool that the message
      -- names, at exactly that name behind the path of the tools; it names the bound subject,
      -- whatever the caller's headers say, and nobody before the first sign-in; and it carries the
      -- caller's authorization. Redirects that the client follows are not covered.
      pub mcp_shim-AllProper : AllProper (mcp_shim json client subject tool host r)
      unfolding mcp_shim
      mcp_shim-AllProper =
          if-AllProper (same r.method (codes "GET")) (quiet (bare 405)) _ (tt, omega arith)
            (if-AllProper (same r.method (codes "DELETE")) (quiet (bare 202)) _ (tt, omega arith)
              (if-AllProper r.readable
                (on_message json client subject tool host r (json.rpc_of (take 4194304 r.body)))
                (quiet (bare 400)) (post_message-AllProper (json.rpc_of (take 4194304 r.body)) refl)
                (tt, omega arith)))
