-- ===== src/Bundle/Reread.antt =====
-- web/gen-bundle.mjs: reading the generated bundle back.
use attested_harness.Common.{
  ◌≡◌, refl, sym, ap, ◌∙◌, ◌≢◌, inl, inr, Bool, not, some, List, [], ◌∷◌, ◌++◌, map, filter, Text,
  All, Free, Bool-cases, split, join, split-append, split-join,
}
use attested_harness.Bundle.{drop_ids, has, row_id, rows, Block, row_text, join_rows}
use attested_harness.Bundle.Rows.{ids_of, flat}
use attested_harness.Bundle.Parts.{IsRow, OpensNone, rows-IsRow}
use attested_harness.Bundle.Spaces.{ids_of-append, ids_of-trim_end, ids_of_empty}

ids_of-none : (ls : List Text) → All OpensNone ls → ids_of ls ≡ []
unfolding ids_of
ids_of-none [] h = refl
ids_of-none (l ∷ ls) (h, hs) = rw h (ids_of-none ls hs)

ids_of-cons :
    (l : Text) (ls : List Text) (id : Text) → row_id l ≡ some id → ids_of (l ∷ ls) ≡ id ∷ ids_of ls
unfolding ids_of
ids_of-cons l ls id h = rw h

-- A row's lines open that row and no other.
ids_of-IsRow : (b : Block) → IsRow b → ids_of b.lines ≡ b.id ∷ []
ids_of-IsRow b r =
    ap ids_of r.parts
    ∙ ids_of-append r.above (r.opener ∷ r.below)
    ∙ ap (λ l. l ++ ids_of (r.opener ∷ r.below)) (ids_of-none r.above r.none_above)
    ∙ ids_of-cons r.opener r.below b.id r.opens
    ∙ ap (λ l. b.id ∷ l) (ids_of-none r.below r.none_below)

split-join_lines :
    (ls : List Text) → ls ≢ [] → All (Free b'\n') ls → split b'\n' (join b'\n' ls) ≡ ls
split-join_lines [] h f = absurd (h refl)
split-join_lines (l ∷ ls) h f = split-join b'\n' l ls f

lines-ne-nil : (b : Block) → IsRow b → b.lines ≢ []
lines-ne-nil b r e = nonempty_middle r.above (r.opener) r.below (sym r.parts ∙ e)
  where
    nonempty_middle : (a : List Text) (x : Text) (c : List Text) → a ++ (x ∷ c) ≢ []
    nonempty_middle [] x c = λ h. cc
    nonempty_middle (y ∷ a) x c = λ h. cc

-- The text of a row opens that row and no other.
ids_of-row_text :
    (b : Block) → IsRow b → All (Free b'\n') b.lines → ids_of (split b'\n' (row_text b)) ≡ b.id ∷ []
unfolding row_text
ids_of-row_text b r f =
    ids_of-trim_end (join b'\n' b.lines)
    ∙ ap ids_of (split-join_lines b.lines (lines-ne-nil b r) f)
    ∙ ids_of-IsRow b r

-- What the generator needs of a block to read it back.
abbrev pub IsClean : Block → Type 0
IsClean b = IsRow b × All (Free b'\n') b.lines

pub ids_of-break :
    (s t : Text)
    → ids_of (split b'\n' (s ++ (b'\n' ∷ t))) ≡ ids_of (split b'\n' s) ++ ids_of (split b'\n' t)
ids_of-break s t =
    ap ids_of (split-append b'\n' s t) ∙ ids_of-append (split b'\n' s) (split b'\n' t)

pub ids_of-join_rows :
    (bs : List Block)
    → All IsClean bs
    → ids_of (split b'\n' (join_rows (map row_text bs))) ≡ map (λ b. b.id) bs
unfolding join_rows
ids_of-join_rows [] h = ids_of_empty
ids_of-join_rows (b ∷ []) ((r, f), _) = ids_of-row_text b r f
ids_of-join_rows (b ∷ c ∷ bs) ((r, f), h) =
    ids_of-break (row_text b) (b'\n' ∷ join_rows (map row_text (c ∷ bs)))
    ∙ ap (λ l. l ++ ids_of (split b'\n' (b'\n' ∷ join_rows (map row_text (c ∷ bs)))))
        (ids_of-row_text b r f)
    ∙ ap (λ l. b.id ∷ l)
        (ids_of-break [] (join_rows (map row_text (c ∷ bs)))
          ∙ ap (λ l. l ++ ids_of (split b'\n' (join_rows (map row_text (c ∷ bs))))) ids_of_empty
          ∙ ids_of-join_rows (c ∷ bs) h)

pub All-filter_of {ℓ κ} :
    {A : Type ℓ} (P : A → Type κ) (p : A → Bool) (xs : List A) → All P xs → All P (filter p xs)
All-filter_of P p [] h = tt
All-filter_of P p (x ∷ xs) (h, hs) = elim (Bool-cases (p x)) [
  | inl e ↦ rw e (h, All-filter_of P p xs hs)
  | inr e ↦ rw e (All-filter_of P p xs hs)
]

All-prefix : (P : Text → Type 0) (xs ys : List Text) → All P (xs ++ ys) → All P xs
All-prefix P [] ys h = tt
All-prefix P (x ∷ xs) ys (h, hs) = (h, All-prefix P xs ys hs)

pub All-suffix : (P : Text → Type 0) (xs ys : List Text) → All P (xs ++ ys) → All P ys
All-suffix P [] ys h = h
All-suffix P (x ∷ xs) ys (h, hs) = All-suffix P xs ys hs

Clean_of_flat : (bs : List Block) → All IsRow bs → All (Free b'\n') (flat bs) → All IsClean bs
Clean_of_flat [] r f = tt
Clean_of_flat (b ∷ bs) (r, rs) f = (
  (r, All-prefix (Free b'\n') b.lines (flat bs) f),
  Clean_of_flat bs rs (All-suffix (Free b'\n') b.lines (flat bs) f),
)

pub rows-Clean : (body : List Text) → All (Free b'\n') body → All IsClean (rows body)
rows-Clean body f =
    let (r, (tail, e, _, _)) = rows-IsRow body in
    Clean_of_flat (rows body) r (All-prefix (Free b'\n') (flat (rows body)) tail (rw (← e) at f))

pub ids-kept :
    (bs : List Block)
    → map (λ b. b.id) (filter (λ b. not (has drop_ids b.id)) bs)
      ≡ filter (λ id. not (has drop_ids id)) (map (λ b. b.id) bs)
ids-kept [] = refl
ids-kept (b ∷ bs) = elim (Bool-cases (not (has drop_ids b.id))) [
  | inl e ↦ rw e (ap (λ l. b.id ∷ l) (ids-kept bs))
  | inr e ↦ rw e (ids-kept bs)
]
