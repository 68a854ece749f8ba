-- ===== src/Egress/Shim/Defaults.antt =====
-- proxy/cmd/egress-proxy/mcpshim.go, applyDocumentedDefaults: what becomes of a call's arguments.
use attested_harness.Common.{
  ◌≡◌, refl, ◌⊎◌, inl, inr, Bool, true, false, Option, none, some, List, [], ◌∷◌, Bool-cases,
  Option-cases, Text, codes, same, same_iff,
}
use attested_harness.Egress.Shim.{
  Codec, documented_defaults, fill, fill_fields, fill_parsed, present, apply_documented_defaults,
}

abbrev at_entry : {V : Type 0} → Bool → V → Option V → Option V
at_entry true v rest = some v
at_entry false v rest = rest

-- `object[field]`.
abbrev pub field_at : {V : Type 0} → Text → List (Text × V) → Option V
field_at field [] = none
field_at field ((k, v) ∷ object) = at_entry (same k field) v (field_at field object)

abbrev pub count : Text
count = codes "count"

-- The tools that have a default.
abbrev pub HasDefault : Text → Text → Type 0
HasDefault server tool =
    (server ≡ codes "web_search") × ((tool ≡ codes "search") ⊎ (tool ≡ codes "search-raw"))

not_default :
    (server tool : Text)
    → same tool (codes "search") ≡ false
    → same tool (codes "search-raw") ≡ false
    → ¬ HasDefault server tool
not_default server tool f g (s, inl t) = cc (f, (same_iff tool (codes "search")).1 t)
not_default server tool f g (s, inr t) = cc (g, (same_iff tool (codes "search-raw")).1 t)

defaults-cases :
    (server tool : Text)
    → (HasDefault server tool × (documented_defaults server tool ≡ count ∷ []))
      ⊎ ((¬ HasDefault server tool) × (documented_defaults server tool ≡ []))
unfolding documented_defaults
defaults-cases server tool = elim (Bool-cases (same server (codes "web_search"))) [
  | inr e ↦ inr (λ (s, _). cc (e, (same_iff server (codes "web_search")).1 s), rw e)
  | inl e ↦ elim (Bool-cases (same tool (codes "search"))) [
    | inl f ↦ inl (((same_iff _ _).0 e, inl ((same_iff _ _).0 f)), rw (e, f))
    | inr f ↦ elim (Bool-cases (same tool (codes "search-raw"))) [
      | inl g ↦ inl (((same_iff _ _).0 e, inr ((same_iff _ _).0 g)), rw (e, f, g))
      | inr g ↦ inr (not_default server tool f g, rw (e, f, g))
    ]
  ]
]

module _ {V : Type 0} (json : Codec V) where
  -- The library encodes every object, and decodes it to one with the same fields.
  abbrev pub Encodes : Type 0
  Encodes =
      (object : List (Text × V))
      → (t : Text) × (back : List (Text × V)) × (json.marshal object ≡ some t)
        × (json.object_of t ≡ some back)
        × ((field : Text) → field_at field back ≡ field_at field object)

  absent :
      (field : Text) (object : List (Text × V))
      → present json field object ≡ false
      → field_at field object ≡ none
  absent field [] h = refl
  absent field ((k, v) ∷ object) h = elim (Bool-cases (same k field)) [
    | inl hit ↦ absurd (cc (rw hit at h))
    | inr miss ↦ rw miss (absent field object (rw miss at h))
  ]

  there_is :
      (field : Text) (object : List (Text × V))
      → present json field object ≡ true
      → (v : V) × (field_at field object ≡ some v)
  there_is field [] h = absurd (cc)
  there_is field ((k, v) ∷ object) h = elim (Bool-cases (same k field)) [
    | inl hit ↦ (v, rw hit)
    | inr miss ↦ let (w, e) = there_is field object (rw miss at h) in (w, rw miss e)
  ]

  present-of :
      (field : Text) (object : List (Text × V)) (v : V)
      → field_at field object ≡ some v
      → present json field object ≡ true
  present-of field [] v h = absurd (cc)
  present-of field ((k, w) ∷ object) v h = elim (Bool-cases (same k field)) [
    | inl hit ↦ rw hit
    | inr miss ↦ rw miss (present-of field object v (rw miss at h))
  ]

  -- What becomes of the arguments. They stay as they are where the tool has no default, where they
  -- are no object, or where the field is there; else the field is added, and every other field
  -- keeps its value.
  pub data Defaulted (server tool args : Text) : Text → Type 0 where
    no_default : ¬ HasDefault server tool → Defaulted server tool args args
    no_object :
        HasDefault server tool → json.object_of args ≡ none → Defaulted server tool args args
    given :
        (object : List (Text × V)) (v : V)
        → HasDefault server tool
        → json.object_of args ≡ some object
        → field_at count object ≡ some v
        → Defaulted server tool args args
    added :
        (object back : List (Text × V)) (out : Text)
        → HasDefault server tool
        → json.object_of args ≡ some object
        → field_at count object ≡ none
        → json.object_of out ≡ some back
        → ((field : Text)
            → field_at field back ≡ field_at field ((count, json.zero_value) ∷ object))
        → Defaulted server tool args out

  fill_parsed-Defaulted :
      (server tool args : Text) (object : List (Text × V))
      → Encodes
      → HasDefault server tool
      → json.object_of args ≡ some object
      → Defaulted server tool args (fill_parsed json (count ∷ []) args (some object))
  unfolding fill
  fill_parsed-Defaulted server tool args object encodes d e =
      elim (Bool-cases (present json count object)) [
        | inl there' ↦ let (v, f) = there_is count object there' in rw there' (given object v d e f)
        | inr gone ↦
            let (t, back, encoded, decoded, agree) = encodes ((count, json.zero_value) ∷ object) in
            rw (gone, encoded) (added object back t d e (absent count object gone) decoded agree)
      ]

  fill_fields-Defaulted :
      (server tool args : Text)
      → Encodes
      → HasDefault server tool
      → Defaulted server tool args (fill_fields json (count ∷ []) args)
  fill_fields-Defaulted server tool args encodes d = elim (Option-cases (json.object_of args)) [
    | inl e ↦ rw e (no_object d e)
    | inr (object, e) ↦ rw e (fill_parsed-Defaulted server tool args object encodes d e)
  ]

  pub apply_documented_defaults-Defaulted :
      (server tool args : Text)
      → Encodes
      → Defaulted server tool args (apply_documented_defaults json server tool args)
  unfolding apply_documented_defaults
  apply_documented_defaults-Defaulted server tool args encodes = elim (defaults-cases server tool) [
    | inl (d, e) ↦ rw e (fill_fields-Defaulted server tool args encodes d)
    | inr (d, e) ↦ rw e (no_default d)
  ]

  stays :
      (server tool args : Text) (object : List (Text × V)) (v : V)
      → HasDefault server tool
      → json.object_of args ≡ some object
      → field_at count object ≡ some v
      → apply_documented_defaults json server tool args ≡ args
  unfolding apply_documented_defaults
  stays server tool args object v d e f = elim (defaults-cases server tool) [
    | inl (_, g) ↦ rw (g, e, present-of count object v f)
    | inr (away, g) ↦ absurd (away d)
  ]

  filled_once :
      (server tool args out : Text)
      → Defaulted server tool args out
      → apply_documented_defaults json server tool args ≡ out
      → apply_documented_defaults json server tool out ≡ out
  filled_once server tool args out (no_default d) h = h
  filled_once server tool args out (no_object d e) h = h
  filled_once server tool args out (given object v d e f) h = h
  filled_once server tool args out (added object back t d e f g agree) h =
      stays server tool t back json.zero_value d g (agree count)

  -- Filling in the defaults twice is filling them in once.
  pub apply_documented_defaults_idem :
      (server tool args : Text)
      → Encodes
      → apply_documented_defaults json server tool (apply_documented_defaults json server tool args)
        ≡ apply_documented_defaults json server tool args
  apply_documented_defaults_idem server tool args encodes =
      filled_once server tool args _ (apply_documented_defaults-Defaulted server tool args encodes)
        refl
