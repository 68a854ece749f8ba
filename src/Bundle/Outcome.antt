-- ===== src/Bundle/Outcome.antt =====
-- web/gen-bundle.mjs: every outcome of the script.
use attested_harness.Common.{
  ◌≡◌, refl, sym, ap, ◌∙◌, ◌≢◌, inl, inr, Bool, true, false, not, ◌||◌, none, some, List, [], ◌∷◌,
  ◌++◌, filter, Text, all, All, Free, arith, Option-cases, Bool-cases, &&_parts, split, split-Free,
  same, same_iff,
}
use attested_harness.Bundle.{
  drop_ids, has, rows, Block, after_insert, render, generate, check_rows, Generated, written,
  failed, no_insert_block, not_in_base, missing_ids,
}
use attested_harness.Bundle.Rows.{ids_of, ids-rows}
use attested_harness.Bundle.Reread.{All-suffix}
use attested_harness.Bundle.Content.{Printed, separated}
use attested_harness.Bundle.Generate.{
  marker, after_insert-hit, after_insert-miss, after_insert-parts, ids_of-render,
}

abbrev pub admitted : Text → Bool
admitted id = not (has drop_ids id)

-- The ids of the allow-list's drops that the lines do not open.
abbrev pub unseen : List Text → List Text
unseen body = filter (λ id. not (has (ids_of body) id)) drop_ids

-- The lines of the source behind its first insert marker.
pub record Behind (src : Text) (body : List Text) : Type 0 where
  pub above : List Text
  pub parts : split b'\n' src ≡ above ++ (marker ∷ body)
  pub first : All (λ l. l ≢ marker) above

-- The outcomes that the specification allows.
pub data GenSpec (src : Text) : Generated → Type 0 where
  no_marker : All (λ l. l ≢ marker) (split b'\n' src) → GenSpec src (failed no_insert_block)
  rows_missing :
      (body : List Text)
      → Behind src body
      → unseen body ≢ []
      → GenSpec src (failed (not_in_base (unseen body)))
  generated :
      (body reread : List Text) (out : Text)
      → Behind src body
      → unseen body ≡ []
      → after_insert (split b'\n' out) ≡ some reread
      → ids_of reread ≡ filter admitted (ids_of body)
      → (texts : List Text) → Printed (filter (λ (b : Block). admitted b.id) (rows body)) texts
      → reread ≡ separated texts
      → GenSpec src (written out)

no_marker_of_none : (ls : List Text) → after_insert ls ≡ none → All (λ l. l ≢ marker) ls
no_marker_of_none [] h = tt
no_marker_of_none (l ∷ ls) h = elim (Bool-cases (same l marker)) [
  | inl e ↦ absurd (cc (after_insert-hit l ls e, h))
  | inr e ↦ (
    λ eq. cc ((same_iff l marker).1 eq, e),
    no_marker_of_none ls (sym (after_insert-miss l ls e) ∙ h),
  )
]

missing_ids-rows : (body : List Text) → missing_ids (rows body) ≡ unseen body
unfolding missing_ids
missing_ids-rows body =
    ap (λ (ids : List Text). filter (λ id. not (has ids id)) drop_ids) (ids-rows body)

check_rows-GenSpec :
    (src : Text) (body gone : List Text)
    → Behind src body
    → All (Free b'\n') body
    → unseen body ≡ gone
    → GenSpec src (check_rows (rows body) gone)
check_rows-GenSpec src body [] b f e =
    let (reread, at, ids, (texts, printed, lines)) = ids_of-render body f in
    generated body reread (render (rows body)) b e at ids texts printed lines
check_rows-GenSpec src body (id ∷ ids) b f e = rw (← e) (rows_missing body b (λ h. cc (e, h)))

-- The script throws that there is no insert block exactly where no line is the marker; else it
-- throws with the dropped ids that no line opens, if there are such; else it writes a bundle. Behind
-- the marker of that bundle stand, in their order and without the dropped ones, the rows of the
-- source, each with all its lines but for the white space at their end, and an empty line between
-- two rows; and read back they open the ids of the source without the dropped ones.
pub generate-GenSpec : (src : Text) → GenSpec src (generate src)
unfolding generate
generate-GenSpec src = elim (Option-cases (after_insert (split b'\n' src))) [
  | inl e ↦ rw e (no_marker (no_marker_of_none (split b'\n' src) e))
  | inr (body, e) ↦
      let (above, parts, first) = after_insert-parts (split b'\n' src) body e in
      let free =
        All-suffix (Free b'\n') above (marker ∷ body) (rw parts at (split-Free b'\n' src)) in
      rw e (
        rw (missing_ids-rows body) (
          check_rows-GenSpec src body (unseen body)
            (record { above = above; parts = parts; first = first }) free.1 refl))
]

admitted-has : (i id : Text) → same i id ≡ true → admitted i ≡ true → has drop_ids id ≡ true → ⊥
admitted-has i id e a h =
    let at_id : admitted id ≡ true = rw ((same_iff i id).0 e) at a in ground (arith, h, at_id)

or_false : (a b : Bool) → a ≡ false → b ≡ false → (a || b) ≡ false
or_false a b h k = ground arith

has-filter-admitted :
    (ids : List Text) (id : Text) → has drop_ids id ≡ true → has (filter admitted ids) id ≡ false
has-filter-admitted [] id h = refl
has-filter-admitted (i ∷ ids) id h = elim (Bool-cases (admitted i)) [
  | inl kept' ↦ rw kept' (elim (Bool-cases (same i id)) [
    | inl e ↦ absurd (admitted-has i id e kept' h)
    | inr e ↦ or_false (same i id) _ e (has-filter-admitted ids id h)
  ])
  | inr dropped ↦ rw dropped (has-filter-admitted ids id h)
]

filter-All {ℓ} :
    {A : Type ℓ} (p : A → Bool) (xs : List A) → All (λ x. p x ≡ true) xs → filter p xs ≡ xs
filter-All p [] h = refl
filter-All p (x ∷ xs) (h, hs) = rw h (ap (λ l. x ∷ l) (filter-All p xs hs))

All-of_all : (p : Text → Bool) (xs : List Text) → all p xs ≡ true → All (λ x. p x ≡ true) xs
All-of_all p [] h = tt
All-of_all p (x ∷ xs) h =
    let (here', rest) = &&_parts (p x) (all p xs) h in (here', All-of_all p xs rest)

All-map : {P Q : Text → Type 0} (f : (x : Text) → P x → Q x) (xs : List Text) → All P xs → All Q xs
All-map f [] h = tt
All-map f (x ∷ xs) (h, hs) = (f x h, All-map f xs hs)

not-true_of_false : (b : Bool) → b ≡ false → not b ≡ true
not-true_of_false b h = ground arith

unseen_of_admitted :
    (reread : List Text) (ids : List Text)
    → ids_of reread ≡ filter admitted ids
    → unseen reread ≡ drop_ids
unseen_of_admitted reread ids e =
    filter-All (λ id. not (has (ids_of reread) id)) drop_ids
      (All-map
        (λ id h.
          not-true_of_false (has (ids_of reread) id)
            (ap (λ (l : List Text). has l id) e ∙ has-filter-admitted ids id h))
        drop_ids (All-of_all (has drop_ids) drop_ids refl))

generate-eq_of_behind :
    (out : Text) (reread : List Text)
    → after_insert (split b'\n' out) ≡ some reread
    → generate out ≡ check_rows (rows reread) (unseen reread)
unfolding generate
generate-eq_of_behind out reread e = rw e (ap (check_rows (rows reread)) (missing_ids-rows reread))

regenerate_of :
    (src : Text) (g : Generated) (out : Text)
    → GenSpec src g
    → g ≡ written out
    → generate out ≡ failed (not_in_base drop_ids)
regenerate_of src g out (no_marker h) e = absurd (cc)
regenerate_of src g out (rows_missing body b h) e = absurd (cc)
regenerate_of src g out (generated body reread out' b h at ids texts printed lines) e =
    let same_out : out' ≡ out = cc in
    generate-eq_of_behind out reread (rw same_out at at)
    ∙ ap (check_rows (rows reread)) (unseen_of_admitted reread (ids_of body) ids)

-- The script refuses its own output: run over a bundle that it wrote, it throws with every dropped
-- id, since none of them is left.
pub generate_again :
    (src out : Text) → generate src ≡ written out → generate out ≡ failed (not_in_base drop_ids)
generate_again src out h = regenerate_of src (generate src) out (generate-GenSpec src) h
