-- ===== src/Egress/Shim/Tests.antt =====
-- proxy/cmd/egress-proxy/mcpshim.go: the filled-in arguments at a concrete JSON library.
use attested_harness.Common.{
  map, zero, suc, ◌++◌, ℕ, ◌≡◌, refl, none, some, List, [], ◌∷◌, Text, codes,
}
use attested_harness.Egress.Shim.{Codec, apply_documented_defaults, documented_defaults, fill}

-- A JSON library whose values are numbers, and which shifts the codes of a field's name to mark the
-- name's end by a zero.
abbrev encode : List (Text × ℕ) → Text
encode [] = []
encode ((k, v) ∷ entries) = map (λ c. suc c) k ++ (0 ∷ v ∷ encode entries)

abbrev with_code : ℕ → List (Text × ℕ) → List (Text × ℕ)
with_code c [] = []
with_code c ((k, v) ∷ entries) = (c ∷ k, v) ∷ entries

abbrev decode : Text → List (Text × ℕ)
decode [] = []
decode (zero ∷ []) = []
decode (zero ∷ v ∷ s) = ([], v) ∷ decode s
decode (suc c ∷ s) = with_code c (decode s)

abbrev numbers : Codec ℕ
numbers = record {
  rpc_of = λ t. none;
  call_of = λ t. none;
  tools_of = λ t. none;
  object_of = λ t. some (decode t);
  marshal = λ entries. some (encode entries);
  zero_value = 0;
}

filled_test :
    apply_documented_defaults numbers
      (codes "web_search")
      (codes "search")
      (encode ((codes "q", 3) ∷ []))
    ≡ encode ((codes "count", 0) ∷ (codes "q", 3) ∷ [])
unfolding apply_documented_defaults documented_defaults fill
filled_test = refl
