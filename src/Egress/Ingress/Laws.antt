-- ===== src/Egress/Ingress/Laws.antt =====
-- proxy/cmd/egress-proxy/main.go and subject.go: what dsh gets from the platform's port, and whom
-- the tools are called for.
use attested_harness.Common.{
  ◌≡◌, ◌≢◌, refl, ◌∙◌, subst, ◌⊎◌, inl, inr, true, false, ◌&&◌, ◌||◌, Option, List, [], ◌∷◌,
  Bool-cases, if_split, any, In, here, there, Text, codes, same, same_iff, ◌++◌, sym, ap, All,
  All-mono, &&_parts,
}
use attested_harness.Egress.{
  on_behalf_of, Headers, get, del, is_empty, record_subject, Inbound, Outbound, Upstream,
}
use attested_harness.Egress.Lookup.{nil_of_is_empty, get-del_self, get-del_other}
use attested_harness.Egress.Ingress.{
  serve_all, Request, Reply, Served, healthy, summary, relayed, subject_header, browser_markers,
  del_all, reads, or_starting, director, serve,
}
use attested_harness.Egress.Shim.{Codec, mcp_shim}
use attested_harness.Egress.Shim.Calls.{Proper, mcp_shim-AllProper}

get-del_nil : (name key : Text) (h : Headers) → get key h ≡ [] → get key (del name h) ≡ []
get-del_nil name key h e = elim (Bool-cases (same name key)) [
  | inl f ↦ subst (λ k. get k (del name h) ≡ []) ((same_iff name key).0 f) (get-del_self name h)
  | inr f ↦ get-del_other name key h f ∙ e
]

del_all_nil :
    (names : List Text) (key : Text) (h : Headers) → get key h ≡ [] → get key (del_all names h) ≡ []
del_all_nil [] key h e = e
del_all_nil (name ∷ names) key h e = del_all_nil names key (del name h) (get-del_nil name key h e)

del_all_gone :
    (names : List Text) (key : Text) (h : Headers) → In key names → get key (del_all names h) ≡ []
del_all_gone [] key h i = elim i [ ]
del_all_gone (name ∷ names) key h (here e) =
    del_all_nil names key (del name h) (subst (λ n. get key (del n h) ≡ []) e (get-del_self key h))
del_all_gone (name ∷ names) key h (there i) = del_all_gone names key (del name h) i

del_all_other :
    (names : List Text) (key : Text) (h : Headers)
    → any (λ name. same name key) names ≡ false
    → get key (del_all names h) ≡ get key h
del_all_other [] key h away = refl
del_all_other (name ∷ names) key h away = elim (Bool-cases (same name key)) [
  | inl e ↦ absurd (cc (rw e at away))
  | inr e ↦ del_all_other names key (del name h) (rw e at away) ∙ get-del_other name key h e
]

abbrev pub IsHealthPath : Text → Type 0
IsHealthPath path = (path ≡ codes "/health") ⊎ (path ≡ codes "/healthz")

health_path :
    (path : Text)
    → (same path (codes "/health") || same path (codes "/healthz")) ≡ true
    → IsHealthPath path
health_path path h = elim (Bool-cases (same path (codes "/health"))) [
  | inl e ↦ inl ((same_iff path (codes "/health")).0 e)
  | inr e ↦ inr ((same_iff path (codes "/healthz")).0 (rw e at h))
]

-- The last subject of these that is not empty, and the bound one where there is none.
abbrev pub IsLatest : List Text → (bound : Text) → Text → Type 0
IsLatest subs bound s =
    ((s ≡ bound) × All (λ t. t ≡ []) subs)
    ⊎ ((before : List Text) × (after : List Text) × (subs ≡ before ++ (s ∷ after))
        × (s ≢ [])
        × All (λ t. t ≡ []) after)

later-IsLatest :
    (t : Text) (subs : List Text) (bound s : Text)
    → IsLatest subs (record_subject t bound) s
    → IsLatest (t ∷ subs) bound s
unfolding record_subject
later-IsLatest [] subs bound s (inl (e, gone)) = inl (e, (refl, gone))
later-IsLatest (c ∷ t) subs bound s (inl (e, gone)) =
    inr ([], subs, ap (λ u. u ∷ subs) (sym e), λ nil. absurd (cc (e, nil)), gone)
later-IsLatest t subs bound s (inr (before, after, e, some_one, gone)) =
    inr (t ∷ before, after, ap (λ us. t ∷ us) e, some_one, gone)

module _ (base : Request → Request) (public_host : Text) where
  -- A request for dsh: no browser marker is left, all other headers are as `base` left them, and
  -- the host is the public one, if there is one.
  abbrev pub IsClean : Request → Request → Type 0
  IsClean r req =
      ((key : Text) → In key browser_markers → get key req.headers ≡ [])
      × ((key : Text)
          → any (λ name. same name key) browser_markers ≡ false
          → get key req.headers ≡ get key (base r).headers)
      × (public_host ≢ [] → req.host ≡ public_host)
      × (public_host ≡ [] → req.host ≡ (base r).host)

  director-IsClean : (r : Request) (bound : Text) → IsClean r (director base public_host r bound).0
  unfolding director
  director-IsClean r bound = (
    λ key i. del_all_gone browser_markers key (base r).headers i,
    λ key away. del_all_other browser_markers key (base r).headers away,
    λ set'. elim (Bool-cases (is_empty public_host)) [
      | inl e ↦ absurd (set' (nil_of_is_empty public_host e))
      | inr e ↦ rw e refl
    ],
    λ unset. rw unset refl,
  )

  -- The subject that a request asserts, where it is relayed.
  abbrev pub asserted : Request → Text
  asserted r = get subject_header (base r).headers

  module _ (dsh : Request → Option Reply) where
    -- What becomes of a request and of the bound subject.
    pub data IsServed (r : Request) (bound : Text) : Served × Text → Type 0 where
      says_alive : reads r.method ≡ true → IsHealthPath r.path → IsServed r bound (healthy, bound)
      sums_up :
          reads r.method ≡ true
          → r.path ≡ codes "/privasys/attestation"
          → IsServed r bound (summary, bound)
      to_dsh :
          (req : Request)
          → IsClean r req
          → IsServed r bound
              (relayed req (or_starting (dsh req)), record_subject (asserted r) bound)

    -- A request is answered by the port itself only where it reads one of the port's own three
    -- paths, and then the bound subject stays. For any other the director makes a request for dsh
    -- without a browser marker, with all other headers as `base` left them, and for the public host
    -- if one is configured; the reply is dsh's, or 503 where dsh gives none; and the subject that
    -- the request asserts is recorded.
    pub serve-IsServed :
        (r : Request) (bound : Text) → IsServed r bound (serve base public_host dsh r bound)
    unfolding serve director
    serve-IsServed r bound =
        if_split (IsServed r bound)
          (reads r.method && (same r.path (codes "/health") || same r.path (codes "/healthz")))
          (healthy, bound) _
          (λ h.
            says_alive (&&_parts _ _ h).0 (health_path r.path (&&_parts (reads r.method) _ h).1))
          (λ _.
            if_split (IsServed r bound)
              (reads r.method && same r.path (codes "/privasys/attestation")) (summary, bound) _
              (λ h. sums_up (&&_parts _ _ h).0 (
                (same_iff r.path (codes "/privasys/attestation")).0
                  (&&_parts (reads r.method) _ h).1))
              (λ _. to_dsh (director base public_host r bound).0 (director-IsClean r bound)))

    -- The subjects that the relayed requests assert, in their order.
    abbrev pub asserted_by : Served → Request → List Text
    asserted_by healthy r = []
    asserted_by summary r = []
    asserted_by (relayed req reply) r = asserted r ∷ []

    abbrev Keeps : Request → (bound : Text) → List Text → Text → Served × Text → Type 0
    Keeps r bound subs t (s, next) =
        IsLatest subs next t → IsLatest (asserted_by s r ++ subs) bound t

    abbrev pub asserted_in : List Request → (bound : Text) → List Text
    asserted_in [] bound = []
    asserted_in (r ∷ rs) bound =
        let (s, next) = serve base public_host dsh r bound in asserted_by s r ++ asserted_in rs next

    serve-IsLatest :
        (r : Request) (bound : Text) (subs : List Text) (t : Text)
        → IsLatest subs (serve base public_host dsh r bound).1 t
        → IsLatest (asserted_by (serve base public_host dsh r bound).0 r ++ subs) bound t
    unfolding serve director
    serve-IsLatest r bound subs t =
        if_split (Keeps r bound subs t)
          (reads r.method && (same r.path (codes "/health") || same r.path (codes "/healthz")))
          (healthy, bound) _ (λ _ h. h)
          (λ _.
            if_split (Keeps r bound subs t)
              (reads r.method && same r.path (codes "/privasys/attestation")) (summary, bound) _
              (λ _ h. h) (λ _ h. later-IsLatest (asserted r) subs bound t h))

    serve_all-IsLatest :
        (rs : List Request) (bound : Text)
        → IsLatest (asserted_in rs bound) bound (serve_all base public_host dsh rs bound)
    unfolding serve_all
    serve_all-IsLatest [] bound = inl (refl, tt)
    serve_all-IsLatest (r ∷ rs) bound =
        let next = (serve base public_host dsh r bound).1 in
        serve-IsLatest r bound (asserted_in rs next) _ (serve_all-IsLatest rs next)

    module _ {V : Type 0} (json : Codec V) (client : Outbound → Upstream) (tool host : Text) where
      -- After any requests on the platform's port, whatever a tool message asks and whatever its
      -- headers say, each request for it to the tool app acts for the last subject that a relayed
      -- request asserted, and for nobody where none did.
      pub tool_subject-IsLatest :
          (rs : List Request) (message : Inbound)
          → All
              (λ (o : Outbound). IsLatest (asserted_in rs []) [] (get on_behalf_of o.headers))
              (mcp_shim json client (serve_all base public_host dsh rs []) tool host message).sent
      tool_subject-IsLatest rs message =
          let subject = serve_all base public_host dsh rs [] in
          let shimmed = mcp_shim json client subject tool host message in
          All-mono (Proper subject host message json)
            (λ (o : Outbound). IsLatest (asserted_in rs []) [] (get on_behalf_of o.headers))
            shimmed.sent
            (λ o (to, below, names, auth).
              subst (IsLatest (asserted_in rs []) []) (sym names) (serve_all-IsLatest rs []))
            (mcp_shim-AllProper subject host message json client tool).0
