-- ===== src/Shell/Route/Laws.antt =====
-- web/privasys-shell.js, installSealedTransport: the mux socket of the page is sealed, and no other.
use attested_harness.Common.{
  ◌≡◌, ◌⊎◌, inl, inr, true, false, Option, some, In, Text, any-In, In-any, same_iff, arith,
  Bool-cases, Option-cases,
}
use attested_harness.Shell.Route.{
  Url, mux_path, sealed_ws_subprotocol, Protocols, no_protocols, one, many, carries_sealed_proto,
  is_mux, Made, sealed_adapter, native_socket, intercept,
}

-- The caller asked for the sealed subprotocol.
abbrev pub Carries : Protocols → Type 0
Carries no_protocols = ⊥
Carries (one p) = p ≡ sealed_ws_subprotocol
Carries (many ps) = In sealed_ws_subprotocol ps

Carries-of : (ps : Protocols) → carries_sealed_proto ps ≡ true → Carries ps
unfolding carries_sealed_proto
Carries-of no_protocols h = cc
Carries-of (one p) h = (same_iff p _).0 h
Carries-of (many ps) h = any-In _ ps h

carries_sealed_proto-Carries : (ps : Protocols) → Carries ps → carries_sealed_proto ps ≡ true
unfolding carries_sealed_proto
carries_sealed_proto-Carries no_protocols h = absurd h
carries_sealed_proto-Carries (one p) h = (same_iff p _).1 h
carries_sealed_proto-Carries (many ps) h = In-any _ ps h

module _ (parse : Text → Option Url) where
  -- The URL parses, and its path is the mux path.
  abbrev pub IsMux : Text → Type 0
  IsMux url = (u : Url) × (parse url ≡ some u) × (u.pathname ≡ mux_path)

  IsMux-of : (url : Text) → is_mux parse url ≡ true → IsMux url
  unfolding is_mux
  IsMux-of url h = elim (Option-cases (parse url)) [
    | inl e ↦ absurd (ground arith)
    | inr (u, e) ↦ (u, e, (same_iff u.pathname mux_path).0 (ground arith))
  ]

  is_mux-IsMux : (url : Text) → IsMux url → is_mux parse url ≡ true
  unfolding is_mux
  is_mux-IsMux url (u, e, p) = rw e ((same_iff u.pathname mux_path).1 p)

  module _ {S : Type 0} (session : S) where
    intercept_sealed :
        (native : Text → Protocols → Made S) (url : Text) (ps : Protocols)
        → is_mux parse url ≡ true
        → carries_sealed_proto ps ≡ false
        → intercept parse session native url ps ≡ sealed_adapter session mux_path
    unfolding intercept
    intercept_sealed native url ps h k = ground arith

    intercept_native :
        (native : Text → Protocols → Made S) (url : Text) (ps : Protocols)
        → (is_mux parse url ≡ false) ⊎ (carries_sealed_proto ps ≡ true)
        → intercept parse session native url ps ≡ native url ps
    unfolding intercept
    intercept_native native url ps h = ground arith

    -- What the page's `new WebSocket` makes: the mux socket that does not ask for the sealed
    -- subprotocol is carried by the session, and every other, the SDK's own among them, is the
    -- browser's socket for the same URL and protocols.
    pub intercept_cases :
        (url : Text) (ps : Protocols)
        → ((intercept parse session native_socket url ps ≡ sealed_adapter session mux_path)
            × IsMux url
            × (¬ Carries ps))
          ⊎ ((intercept parse session native_socket url ps ≡ native_socket url ps)
              × ((¬ IsMux url) ⊎ Carries ps))
    intercept_cases url ps = elim (Bool-cases (is_mux parse url)) [
      | inl mux ↦ elim (Bool-cases (carries_sealed_proto ps)) [
        | inl carried ↦
            inr (intercept_native native_socket url ps (inr carried), inr (Carries-of ps carried))
        | inr bare ↦ inl (
          intercept_sealed native_socket url ps mux bare,
          IsMux-of url mux,
          λ c. cc (carries_sealed_proto-Carries ps c, bare),
        )
      ]
      | inr other ↦ inr (
        intercept_native native_socket url ps (inl other),
        inl (λ m. cc (is_mux-IsMux url m, other)),
      )
    ]
