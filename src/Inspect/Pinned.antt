-- ===== src/Inspect/Pinned.antt =====
-- From the dependency set to the tab: Pinned in proxy/internal/attested/depset.go, which the ingress
-- port serves as JSON, and the digest that web/overlay/trajectory/PrivasysAttestationTab.tsx expects
-- of a tool's enclave.
use attested_harness.Common.{
  ◌≡◌, refl, inl, inr, Bool, false, ◌&&◌, Option, none, some, List, [], ◌∷◌, map, if◌then◌else◌,
  Bool-cases, Text, same, ℕ, ap,
}
use attested_harness.Egress.{is_empty}
use attested_harness.Egress.Lookup.{nil_of_is_empty}
use attested_harness.Inspect.{
  App, Dep, Pins, summary, report, Known, unknown, member, listed, known_of, server_of, show, tab,
  pinned_hash, expected_of, hex_of, base64_to_hex, attest_url,
}

-- A measurement that an entry accepts: a TDX one, if there is one, and an SGX one, or the empty text.
pub record Measurement : Type 0 where
  pub tdx : Option Text
  pub sgx : Text

-- An entry of the set: the app, the extensions that its certificate must have, with their bytes, and
-- its measurements.
pub record Entry : Type 0 where
  pub app_id : Text
  pub required_oids : List (Text × Text)
  pub measurements : List Measurement

-- `PinnedPeer`, with `PinnedMeasurement` as a pair of MRTD and MRENCLAVE.
pub record PinnedPeer : Type 0 where
  pub app_id : Text
  pub code_hash : Text
  pub measurements : List (Text × Text)

abbrev flatten : Measurement → Text × Text
flatten m = (elim m.tdx [ none ↦ [] | some mrtd ↦ mrtd ], m.sgx)

unfoldable pub pinned_measurements : List Measurement → List (Text × Text)
pinned_measurements [] = []
pinned_measurements (m ∷ ms) =
    let rest = pinned_measurements ms in
    if is_empty (flatten m).0 && is_empty (flatten m).1 then rest else flatten m ∷ rest

module _ (code_hash_oid : Text) (base64 : Text → Text) where
  -- The loop over the required extensions: a later code hash replaces an earlier one.
  unfoldable pub code_hash_of : List (Text × Text) → Text → Text
  code_hash_of [] hash = hash
  code_hash_of ((oid, value) ∷ oids) hash =
      code_hash_of oids (if same oid code_hash_oid then base64 value else hash)

  abbrev pub pinned_peer : Entry → PinnedPeer
  pinned_peer e = record {
    app_id = e.app_id;
    code_hash = code_hash_of e.required_oids [];
    measurements = pinned_measurements e.measurements;
  }

  -- `Pinned`.
  abbrev pub pinned : List Entry → List PinnedPeer
  pinned es = map pinned_peer es

  -- The JSON of a peer, as the tab reads it: an empty code hash is left out.
  abbrev pub dep_of : PinnedPeer → Dep
  dep_of p = record {
    app_id = p.app_id;
    code_hash = if is_empty p.code_hash then none else some p.code_hash;
  }

  abbrev pub served_pins : List Entry → Pins
  served_pins es = summary (some (map dep_of (pinned es)))

  -- The bytes that an entry requires of its app's code hash: those of its last such extension.
  abbrev pub required_of : List (Text × Text) → Option Text → Option Text
  required_of [] last = last
  required_of ((oid, value) ∷ oids) last =
      required_of oids (if same oid code_hash_oid then some value else last)

  -- An empty one stands for none.
  abbrev pub in_hex : Option Text → Option Text
  in_hex none = none
  in_hex (some []) = none
  in_hex (some (c ∷ v)) = some (hex_of (c ∷ v))

  -- The digest in hex that the set's first entry for the app requires.
  abbrev pub digest_in : Text → List Entry → Option Text
  digest_in id [] = none
  digest_in id (e ∷ es) =
      if same e.app_id id then in_hex (required_of e.required_oids none) else digest_in id es

  abbrev encoded : Option Text → Text
  encoded none = []
  encoded (some v) = base64 v

  code_hash_of-encoded :
      (oids : List (Text × Text)) (last : Option Text)
      → code_hash_of oids (encoded last) ≡ encoded (required_of oids last)
  unfolding code_hash_of
  code_hash_of-encoded [] last = refl
  code_hash_of-encoded ((oid, value) ∷ oids) last = elim (Bool-cases (same oid code_hash_oid)) [
    | inl e ↦ rw e (code_hash_of-encoded oids (some value))
    | inr e ↦ rw e (code_hash_of-encoded oids last)
  ]

  module _ (atob : Text → Option Text) (decodes : (v : Text) → atob (base64 v) ≡ some v)
      (of_empty : base64 [] ≡ []) where
    not_empty : (c : ℕ) (v : Text) → is_empty (base64 (c ∷ v)) ≡ false
    not_empty c v = elim (Bool-cases (is_empty (base64 (c ∷ v)))) [
      | inr e ↦ e
      | inl e ↦
          let nothing = nil_of_is_empty (base64 (c ∷ v)) e in
          absurd (cc (decodes (c ∷ v), decodes [], nothing, of_empty))
    ]

    decoded : (v : Text) → base64_to_hex atob (base64 v) ≡ hex_of v
    unfolding base64_to_hex
    decoded v = rw (decodes v) refl

    expected_of-encoded :
        (o : Option Text)
        → expected_of atob (if is_empty (encoded o) then none else some (encoded o)) ≡ in_hex o
    expected_of-encoded none = refl
    expected_of-encoded (some []) = rw of_empty refl
    expected_of-encoded (some (c ∷ v)) = rw (not_empty c v) (ap (λ h. some h) (decoded (c ∷ v)))

    expected_of-pins :
        (id : Text) (es : List Entry)
        → expected_of atob (pinned_hash id (map dep_of (pinned es))) ≡ digest_in id es
    unfolding pinned_hash
    expected_of-pins id [] = refl
    expected_of-pins id (e ∷ es) = elim (Bool-cases (same e.app_id id)) [
      | inl f ↦
          rw (f, code_hash_of-encoded e.required_oids none)
            (expected_of-encoded (required_of e.required_oids none))
      | inr f ↦ rw f (expected_of-pins id es)
    ]

    shown_digest :
        (wire : Text) (es : List Entry) (k : Known) (label url : Text) (expected : Option Text)
        (unpinned : Bool)
        → show atob wire (served_pins es) k ≡ report label url expected unpinned
        → (app : App) × (k ≡ listed app)
          × (url ≡ attest_url app)
          × (expected ≡ digest_in app.app_id es)
          × (unpinned ≡ false)
    shown_digest wire es unknown label url expected unpinned h = absurd (cc)
    shown_digest wire es member label url expected unpinned h = absurd (cc)
    shown_digest wire es (listed app) label url expected unpinned h =
        (app, refl, cc, cc (expected_of-pins app.app_id es), cc)

    -- If the browser decodes what the proxy encodes, and the empty text is encoded as itself: where
    -- the tab shows a report, it is that of the app of the call's server, and the digest that it
    -- expects is, in hex, the code hash that the first entry of the dependency set for that app
    -- requires, the last one if it names several; it expects none where the entry requires none or
    -- an empty one, or no entry is for the app.
    pub tab-digest_in :
        (wire : Text) (es : List Entry) (label url : Text) (expected : Option Text)
        (unpinned : Bool)
        → tab atob wire (served_pins es) ≡ report label url expected unpinned
        → (app : App) × (known_of (server_of wire) ≡ listed app)
          × (url ≡ attest_url app)
          × (expected ≡ digest_in app.app_id es)
          × (unpinned ≡ false)
    unfolding tab
    tab-digest_in wire es label url expected unpinned h =
        shown_digest wire es (known_of (server_of wire)) label url expected unpinned h
