-- ===== src/Bundle/Spaces.antt =====
-- web/gen-bundle.mjs: white space at the end of a text does not change the rows that it opens.
use attested_harness.Common.{
  trim_cons, trim_end, ℕ, ◌≡◌, refl, sym, ap, ◌∙◌, ◌⊎◌, inl, inr, true, false, Option, none, some,
  List, [], ◌∷◌, ◌++◌, append-nil, append_assoc, Text, codes, all, arith, Bool-cases, &&_parts,
  is_space, split, split-append, split-snoc, split-cons, snoc_last, strip_prefix, ◌==◌,
  if◌then◌else◌, ==_iff,
}
use attested_harness.Bundle.{row_id, word, nonempty}
use attested_harness.Bundle.Rows.{ids_of, add_id}

strip_prefix-eq :
    (c d : ℕ) (f s : Text) → (c == d) ≡ true → strip_prefix (c ∷ f) (d ∷ s) ≡ strip_prefix f s
unfolding strip_prefix
strip_prefix-eq c d f s h = ground arith

strip_prefix-ne : (c d : ℕ) (f s : Text) → (c == d) ≡ false → strip_prefix (c ∷ f) (d ∷ s) ≡ none
unfolding strip_prefix
strip_prefix-ne c d f s h = ground arith

strip_prefix-empty : (c : ℕ) (f : Text) → strip_prefix (c ∷ f) [] ≡ none
unfolding strip_prefix
strip_prefix-empty c f = refl

strip_prefix-done : (s : Text) → strip_prefix [] s ≡ some s
unfolding strip_prefix
strip_prefix-done s = refl

-- How a text that grows by one code unit meets a prefix.
strip_prefix-snoc :
    (f l : Text) (c : ℕ)
    → ((r : Text) × (strip_prefix f l ≡ some r)
        × (strip_prefix f (l ++ (c ∷ [])) ≡ some (r ++ (c ∷ []))))
      ⊎ ((strip_prefix f l ≡ none)
          × ((strip_prefix f (l ++ (c ∷ [])) ≡ none) ⊎ (strip_prefix f (l ++ (c ∷ [])) ≡ some [])))
strip_prefix-snoc [] l c = inl (l, strip_prefix-done l, strip_prefix-done (l ++ (c ∷ [])))
strip_prefix-snoc (d ∷ []) [] c = elim (Bool-cases (d == c)) [
  | inl e ↦ inr (strip_prefix-empty d [], inr (strip_prefix-eq d c [] [] e ∙ strip_prefix-done []))
  | inr e ↦ inr (strip_prefix-empty d [], inl (strip_prefix-ne d c [] [] e))
]
strip_prefix-snoc (d ∷ e ∷ f) [] c = elim (Bool-cases (d == c)) [
  | inl h ↦ inr (
    strip_prefix-empty d (e ∷ f),
    inl (strip_prefix-eq d c (e ∷ f) [] h ∙ strip_prefix-empty e f),
  )
  | inr h ↦ inr (strip_prefix-empty d (e ∷ f), inl (strip_prefix-ne d c (e ∷ f) [] h))
]
strip_prefix-snoc (d ∷ f) (e ∷ l) c = elim (Bool-cases (d == e)) [
  | inl h ↦
      rw (strip_prefix-eq d e f l h, strip_prefix-eq d e f (l ++ (c ∷ [])) h)
        (strip_prefix-snoc f l c)
  | inr h ↦ inr (strip_prefix-ne d e f l h, inl (strip_prefix-ne d e f (l ++ (c ∷ [])) h))
]

word-snoc : (r : Text) (c : ℕ) → is_space c ≡ true → word (r ++ (c ∷ [])) ≡ word r
word-snoc [] c h = rw h
word-snoc (d ∷ r) c h = ap (λ l. if is_space d then [] else d ∷ l) (word-snoc r c h)

row_id-snoc : (l : Text) (c : ℕ) → is_space c ≡ true → row_id (l ++ (c ∷ [])) ≡ row_id l
unfolding row_id
row_id-snoc l c h = elim (strip_prefix-snoc (codes "    - id: ") l c) [
  | inl (r, e, e') ↦ rw (e, e', row_id) (ap nonempty (word-snoc r c h))
  | inr (e, inl e') ↦ rw (e, e')
  | inr (e, inr e') ↦ rw (e, e')
]

add_id_pulls : (o : Option Text) (ls ms : List Text) → add_id o (ls ++ ms) ≡ add_id o ls ++ ms
add_id_pulls none ls ms = refl
add_id_pulls (some id) ls ms = refl

pub ids_of_empty : ids_of (split b'\n' []) ≡ []
unfolding ids_of split row_id strip_prefix
ids_of_empty = refl

pub ids_of-append : (ls ms : List Text) → ids_of (ls ++ ms) ≡ ids_of ls ++ ids_of ms
unfolding ids_of
ids_of-append [] ms = refl
ids_of-append (l ∷ ls) ms =
    ap (add_id (row_id l)) (ids_of-append ls ms) ∙ add_id_pulls (row_id l) (ids_of ls) (ids_of ms)

ids_of-snoc_last :
    (c : ℕ) (p : Text) (ps : List Text)
    → is_space c ≡ true
    → ids_of (snoc_last c (p ∷ ps)) ≡ ids_of (p ∷ ps)
unfolding ids_of
ids_of-snoc_last c p [] h = ap (λ o. add_id o []) (row_id-snoc p c h)
ids_of-snoc_last c p (q ∷ ps) h = ap (add_id (row_id p)) (ids_of-snoc_last c q ps h)

-- White space behind a text opens no row and changes none.
ids_of-spaces :
    (s spaces : Text)
    → all is_space spaces ≡ true
    → ids_of (split b'\n' (s ++ spaces)) ≡ ids_of (split b'\n' s)
ids_of-spaces s [] h = ap (λ t. ids_of (split b'\n' t)) (append-nil s)
ids_of-spaces s (c ∷ spaces) h =
    let (here, rest) = &&_parts (is_space c) (all is_space spaces) h in
    elim (Bool-cases (c == b'\n')) [
      | inl at_break ↦ rw ((==_iff c b'\n').0 at_break) (
          ap ids_of (split-append b'\n' s spaces)
          ∙ ids_of-append (split b'\n' s) (split b'\n' spaces)
          ∙ ap (λ l. ids_of (split b'\n' s) ++ l) (ids_of-spaces [] spaces rest ∙ ids_of_empty)
          ∙ append-nil _)
      | inr inside ↦
          let (p, ps, e) = split-cons b'\n' s in
          ap (λ t. ids_of (split b'\n' t)) (sym (append_assoc s (c ∷ []) spaces))
          ∙ ids_of-spaces (s ++ (c ∷ [])) spaces rest
          ∙ ap ids_of (split-snoc b'\n' c s inside)
          ∙ rw e (ids_of-snoc_last c p ps here)
    ]

trim_cons-parts :
    (c : ℕ) (t spaces : Text)
    → all is_space spaces ≡ true
    → (more : Text) × (c ∷ (t ++ spaces) ≡ trim_cons c t ++ more) × (all is_space more ≡ true)
trim_cons-parts c [] spaces h = elim (Bool-cases (is_space c)) [
  | inl blank ↦ (c ∷ spaces, rw blank refl, rw blank h)
  | inr solid ↦ (spaces, rw solid refl, h)
]
trim_cons-parts c (d ∷ t) spaces h = (spaces, refl, h)

pub trim_end-parts :
    (s : Text) → (spaces : Text) × (s ≡ trim_end s ++ spaces) × (all is_space spaces ≡ true)
unfolding trim_end
trim_end-parts [] = ([], refl, refl)
trim_end-parts (c ∷ s) =
    let (spaces, e, h) = trim_end-parts s in
    let (more, e', h') = trim_cons-parts c (trim_end s) spaces h in
    (more, ap (λ t. c ∷ t) e ∙ e', h')

pub ids_of-trim_end : (s : Text) → ids_of (split b'\n' (trim_end s)) ≡ ids_of (split b'\n' s)
ids_of-trim_end s =
    let (spaces, e, h) = trim_end-parts s in
    sym (ap (λ t. ids_of (split b'\n' t)) e ∙ ids_of-spaces (trim_end s) spaces h)
