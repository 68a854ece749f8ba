-- ===== src/Egress/Scan/Lossless.antt =====
-- proxy/cmd/egress-proxy/repro.go: what `lossyKeys` reports, against the payload's numbers.
use attested_harness.Common.{
  ℕ, suc, ◌≡◌, refl, ◌↔◌, true, List, [], ◌∷◌, ◌++◌, Text, split, join, sym, ap, ◌∙◌, subst, inl,
  inr, Bool, false, Option, some, append-nil, Bool-cases,
}
use attested_harness.Egress.Scan.{
  report_if, Json, Items, Fields, null, bool, string, number, array, object, no_items, item,
  no_fields, field, Step, Finding, walk, walk_items, walk_fields, walk_number, lossy_keys,
  is_negative_zero, is_not_finite,
}
use attested_harness.Egress.Scan.Finite.{is_not_finite-print}
use attested_harness.Egress.Scan.Numbers.{
  Number, IsNumber, print, significand, is_negative_zero_iff,
}

-- The spelling of a number of JSON.
abbrev IsSpelling : Text → Type 0
IsSpelling s = (n : Number) × IsNumber n × (print n ≡ s)

-- What the client of the stream can keep: a number other than negative zero.
abbrev Keeps : Text → Type 0
Keeps s = (n : Number) → IsNumber n → print n ≡ s → ¬ ((n.negative ≡ true) × (significand n ≡ 0))

unfoldable mutual
  pub Spelled : Json → Type 0
  Spelled null = Unit
  Spelled (bool b) = Unit
  Spelled (string s) = Unit
  Spelled (number s) = IsSpelling s
  Spelled (array items) = SpelledItems items
  Spelled (object fields) = SpelledFields fields

  SpelledItems : Items → Type 0
  SpelledItems no_items = Unit
  SpelledItems (item v items) = Spelled v × SpelledItems items

  SpelledFields : Fields → Type 0
  SpelledFields no_fields = Unit
  SpelledFields (field k v fields) = Spelled v × SpelledFields fields

unfoldable mutual
  pub Lossless : Json → Type 0
  Lossless null = Unit
  Lossless (bool b) = Unit
  Lossless (string s) = Unit
  Lossless (number s) = Keeps s
  Lossless (array items) = LosslessItems items
  Lossless (object fields) = LosslessFields fields

  LosslessItems : Items → Type 0
  LosslessItems no_items = Unit
  LosslessItems (item v items) = Lossless v × LosslessItems items

  LosslessFields : Fields → Type 0
  LosslessFields no_fields = Unit
  LosslessFields (field k v fields) = Lossless v × LosslessFields fields

walk_number-finite :
    (path : List Step) (s : Text)
    → IsSpelling s
    → walk_number path s ≡ report_if (is_negative_zero s) path s
walk_number-finite path s (n, is_number, e) =
    let finite : is_not_finite s ≡ false =
      subst (λ t. is_not_finite t ≡ false) e (is_not_finite-print n is_number) in
    ap (λ b. report_if (is_negative_zero s) path s ++ report_if b path s) finite
    ∙ append-nil (report_if (is_negative_zero s) path s)

report_if-nil : (b : Bool) (path : List Step) (s : Text) → (report_if b path s ≡ []) ↔ (b ≡ false)
report_if-nil true path s = (λ h. absurd (cc), λ h. absurd (cc))
report_if-nil false path s = (λ h. refl, λ h. refl)

negative_zero-print :
    (n : Number) (s : Text)
    → IsNumber n
    → print n ≡ s
    → (is_negative_zero s ≡ true) ↔ ((n.negative ≡ true) × (significand n ≡ 0))
negative_zero-print n s is_number e =
    let (back, forth) = is_negative_zero_iff n is_number in
    (λ h. back (ap is_negative_zero e ∙ h), λ h. ap is_negative_zero (sym e) ∙ forth h)

walk_number-nil : (path : List Step) (s : Text) → IsSpelling s → (walk_number path s ≡ []) ↔ Keeps s
walk_number-nil path s spelling =
    let finite = walk_number-finite path s spelling in
    let (n, is_number, e) = spelling in
    let (silent, quiet) = report_if-nil (is_negative_zero s) path s in
    (
      λ h m m_number f bad.
          let seen = (negative_zero-print m s m_number f).1 bad in
          let unseen = silent (sym finite ∙ h) in absurd (cc (seen, unseen)),
      λ keeps. elim (Bool-cases (is_negative_zero s)) [
        | inl f ↦ absurd (keeps n is_number e ((negative_zero-print n s is_number e).0 f))
        | inr f ↦ finite ∙ quiet f
      ],
    )

append_nil_iff : (xs ys : List Finding) → (xs ++ ys ≡ []) ↔ ((xs ≡ []) × (ys ≡ []))
append_nil_iff [] ys = (λ h. (refl, h), λ (e, f). f)
append_nil_iff (x ∷ xs) ys = (λ h. absurd (cc), λ (e, f). absurd (cc))

both_iff :
    (xs ys : List Finding) (P Q : Type 0)
    → (xs ≡ []) ↔ P
    → (ys ≡ []) ↔ Q
    → (xs ++ ys ≡ []) ↔ (P × Q)
both_iff xs ys P Q (p, p') (q, q') =
    let (split, join) = append_nil_iff xs ys in
    (λ h. let (e, f) = split h in (p e, q f), λ (e, f). join (p' e, q' f))

mutual
  unfolding walk Spelled Lossless

  walk-nil : (path : List Step) (v : Json) → Spelled v → (walk path v ≡ []) ↔ Lossless v
  walk-nil path null h = (λ _. tt, λ _. refl)
  walk-nil path (bool b) h = (λ _. tt, λ _. refl)
  walk-nil path (string s) h = (λ _. tt, λ _. refl)
  walk-nil path (number s) h = walk_number-nil path s h
  walk-nil path (array items) h = walk_items-nil path 0 items h
  walk-nil path (object fields) h = walk_fields-nil path fields h

  walk_items-nil :
      (path : List Step) (i : ℕ) (items : Items)
      → SpelledItems items
      → (walk_items path i items ≡ []) ↔ LosslessItems items
  walk_items-nil path i no_items h = (λ _. tt, λ _. refl)
  walk_items-nil path i (item v items) (h, hs) =
      both_iff _ _ _ _ (walk-nil _ v h) (walk_items-nil path (suc i) items hs)

  walk_fields-nil :
      (path : List Step) (fields : Fields)
      → SpelledFields fields
      → (walk_fields path fields ≡ []) ↔ LosslessFields fields
  walk_fields-nil path no_fields h = (λ _. tt, λ _. refl)
  walk_fields-nil path (field k v fields) (h, hs) =
      both_iff _ _ _ _ (walk-nil _ v h) (walk_fields-nil path fields hs)

module _ (decode : Text → Option Json) (block_of : Text → Option (Option Text)) where
  -- Of a payload that is decoded to a value whose numbers are all spelled as in JSON, `lossyKeys`
  -- reports nothing exactly where none of the numbers in it, at any depth, is negative zero.
  pub lossy_keys-nil :
      (payload : Text) (v : Json)
      → decode payload ≡ some v
      → Spelled v
      → (lossy_keys decode block_of payload ≡ []) ↔ Lossless v
  lossy_keys-nil payload v e spelled = rw e (walk-nil [] v spelled)
