-- ===== src/Egress/Forward/Laws.antt =====
-- proxy/cmd/egress-proxy/main.go: which requests the loopback listener hands to the client.
use attested_harness.Common.{
  if_split, ℕ, ◌≡◌, ◌≢◌, refl, ap, ◌∙◌, ◌⊎◌, inl, inr, Bool, true, false, Option, none, some, [],
  ◌∷◌, ◌++◌, Bool-cases, Option-cases, Text, codes, same, same_iff, strip_prefix_sound, cut,
  cut_sound, ◌&&◌, ◌||◌,
}
use attested_harness.Egress.{
  on_behalf_of, Headers, get, del, Inbound, Outbound, is_empty, authorization, Config, host_of,
}
use attested_harness.Egress.Lookup.{get-del_self, get-del_other, get-set_other}
use attested_harness.Egress.Forward.{
  Handled, own_reply, redirect, forwarded, shimmed, target_url, forwarded_headers, forward_request,
  inject_repro_opt_in, repro_opt_in, without_bearer, model_leg, tool_to, tool_leg, or_tool,
  or_model, handle, reads,
}

-- The path is that of the tool, alone or with a path behind it.
abbrev pub ToolPath : Text → Text → Type 0
ToolPath name path =
    (path ≡ codes "/tool/" ++ name)
    ⊎ ((rest : Text) × (path ≡ codes "/tool/" ++ (name ++ (b'/' ∷ rest))))

-- What a handler may do, up to the request that it hands to the client. To the model: on its own path, to the configured host, and on the
-- platform without a bearer. To a tool: on its own path, to the host that is configured for it.
pub data Allowed (cfg : Config) (r : Inbound) : Handled → Type 0 where
  nothing_sent : (status : ℕ) → Allowed cfg r (own_reply status)
  redirected : (path : Text) → Allowed cfg r (redirect path)
  to_model :
      (path : Text) (o : Outbound)
      → r.path ≡ codes "/model/" ++ path
      → (cfg.model_host ≢ [])
      → o.host ≡ cfg.model_host
      → o.url ≡ target_url cfg.model_host (b'/' ∷ path) r.raw_query
      → (cfg.on_platform ≡ true → get authorization o.headers ≡ [])
      → Allowed cfg r (forwarded o true)
  to_tool :
      (name path : Text) (o : Outbound)
      → ToolPath name r.path
      → (host_of name cfg.tool_hosts ≢ [])
      → o.host ≡ host_of name cfg.tool_hosts
      → o.url ≡ target_url (host_of name cfg.tool_hosts) (b'/' ∷ path) r.raw_query
      → Allowed cfg r (forwarded o false)
  to_shim :
      (name : Text)
      → r.path ≡ codes "/tool/" ++ (name ++ codes "/mcp")
      → (host_of name cfg.tool_hosts ≢ [])
      → Allowed cfg r (shimmed name (host_of name cfg.tool_hosts) r)

ne_nil : (s : Text) → is_empty s ≡ false → s ≢ []
ne_nil [] h e = cc
ne_nil (c ∷ s) h e = cc

opt_in-keeps :
    (name : Text) (h : Headers)
    → same repro_opt_in name ≡ false
    → get name (inject_repro_opt_in h) ≡ get name h
unfolding inject_repro_opt_in
opt_in-keeps name h ne = elim (Bool-cases (is_empty (get repro_opt_in h))) [
  | inl e ↦ rw e (get-set_other repro_opt_in name (codes "1") h ne)
  | inr e ↦ rw e refl
]

-- `forward` changes no header but two.
pub get-forwarded_headers :
    (repro : Bool) (name : Text) (h : Headers)
    → same (codes "Accept-Encoding") name ≡ false
    → same repro_opt_in name ≡ false
    → get name (forwarded_headers repro h) ≡ get name h
get-forwarded_headers true name h ne ne' =
    opt_in-keeps name (del (codes "Accept-Encoding") h) ne'
    ∙ get-del_other (codes "Accept-Encoding") name h ne
get-forwarded_headers false name h ne ne' = get-del_other (codes "Accept-Encoding") name h ne

bearer_dropped :
    (on : Bool) (r : Inbound)
    → on ≡ true
    → get authorization (forwarded_headers true (without_bearer on r).headers) ≡ []
bearer_dropped true r h =
    get-forwarded_headers true authorization (del authorization r.headers) refl refl
    ∙ get-del_self authorization r.headers
bearer_dropped false r h = absurd (cc)

query_same : (on : Bool) (r : Inbound) → (without_bearer on r).raw_query ≡ r.raw_query
query_same true r = refl
query_same false r = refl

module _ (cfg : Config) (r : Inbound) where
  model_leg-Allowed :
      (path : Text)
      → r.path ≡ codes "/model/" ++ path
      → Allowed cfg r (model_leg cfg r (b'/' ∷ path))
  unfolding model_leg forward_request
  model_leg-Allowed path e =
      if_split (Allowed cfg r) (is_empty cfg.model_host) _ _ (λ unset. nothing_sent 501)
        (λ there'.
          to_model path _ e (ne_nil cfg.model_host there') refl
            (ap (target_url cfg.model_host (b'/' ∷ path)) (query_same cfg.on_platform r))
            (bearer_dropped cfg.on_platform r))

  tool_to-Allowed :
      (name path : Text)
      → ToolPath name r.path
      → (path ≡ codes "mcp" → r.path ≡ codes "/tool/" ++ (name ++ codes "/mcp"))
      → Allowed cfg r (tool_to cfg r name (host_of name cfg.tool_hosts) path)
  unfolding forward_request
  tool_to-Allowed name path e whole =
      if_split (Allowed cfg r) (is_empty (host_of name cfg.tool_hosts)) _ _
        (λ unset. nothing_sent 404)
        (λ there'.
          if_split (Allowed cfg r) (same path (codes "mcp")) _ _
            (λ mcp. to_shim name (whole ((same_iff path (codes "mcp")).0 mcp)) (ne_nil _ there'))
            (λ plain. to_tool name path _ e (ne_nil _ there') refl refl))

  tool_leg-Allowed :
      (rest : Text) → r.path ≡ codes "/tool/" ++ rest → Allowed cfg r (tool_leg cfg r rest)
  unfolding tool_leg
  tool_leg-Allowed rest e = elim (Option-cases (cut (codes "/") rest)) [
    | inl bare' ↦ rw bare' (tool_to-Allowed rest [] (inl e) (λ h. absurd (cc)))
    | inr ((name, path), found) ↦
        let parts = (cut_sound (codes "/") rest name path found).0 in
        let at : r.path ≡ codes "/tool/" ++ (name ++ (b'/' ∷ path)) =
          e ∙ ap (λ s. codes "/tool/" ++ s) parts in
        rw found (
          tool_to-Allowed name path (inr (path, at))
            (λ h. at ∙ ap (λ s. codes "/tool/" ++ (name ++ (b'/' ∷ s))) h))
  ]

  or_tool-Allowed :
      (o : Option Text)
      → ((rest : Text) → o ≡ some rest → r.path ≡ codes "/tool/" ++ rest)
      → Allowed cfg r (or_tool cfg r o)
  or_tool-Allowed (some rest) e = tool_leg-Allowed rest (e rest refl)
  or_tool-Allowed none e =
      if_split (Allowed cfg r) (same r.path (codes "/model") || same r.path (codes "/tool")) _ _
        (λ h. redirected (r.path ++ codes "/"))
        (λ h.
          if_split (Allowed cfg r) (reads r.method && same r.path (codes "/healthz")) _ _
            (λ g. nothing_sent 200) (λ g. nothing_sent 404))

  or_model-Allowed :
      (o : Option Text)
      → ((path : Text) → o ≡ some path → r.path ≡ codes "/model/" ++ path)
      → Allowed cfg r (or_model cfg r o)
  or_model-Allowed (some path) e = model_leg-Allowed path (e path refl)
  or_model-Allowed none e =
      or_tool-Allowed _ (λ rest h. strip_prefix_sound (codes "/tool/") r.path rest h)

  -- Whatever request reaches the loopback listener, the request that the handler hands to the
  -- attested client for it is for the model's configured host, from a path below /model/, and on
  -- the platform without a bearer; or for the host that is configured for the tool that the path
  -- names, on the path behind that name; and a path that is neither gets a reply of the proxy's own.
  -- Redirects that the client follows are not covered.
  pub handle-Allowed : Allowed cfg r (handle cfg r)
  unfolding handle
  handle-Allowed = or_model-Allowed _ (λ path h. strip_prefix_sound (codes "/model/") r.path path h)

  -- The request carries the caller's own value of the header.
  abbrev KeepsSubject : Handled → Type 0
  KeepsSubject (forwarded o repro) = get on_behalf_of o.headers ≡ get on_behalf_of r.headers
  KeepsSubject _ = Unit {0}
