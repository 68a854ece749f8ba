-- ===== src/Bundle/Generate.antt =====
-- web/gen-bundle.mjs: what the script writes, and when it throws.
use attested_harness.Common.{
  ◌≡◌, refl, sym, ap, ◌∙◌, ◌≢◌, inl, inr, true, false, not, some, List, [], ◌∷◌, ◌++◌, append-nil,
  append_assoc, map, filter, Text, codes, All, Free, Bool-cases, split, split-append, same,
  same_iff,
}
use attested_harness.Bundle.{
  drop_ids, has, rows, Block, after_insert, kept, row_text, join_rows, header, render,
}
use attested_harness.Bundle.Rows.{ids_of, ids-rows}
use attested_harness.Bundle.Spaces.{ids_of_empty}
use attested_harness.Bundle.Content.{Printed, separated, row_text-Printed, split-join_rows}
use attested_harness.Bundle.Reread.{
  IsClean, rows-Clean, ids-kept, ids_of-join_rows, ids_of-break, All-filter_of,
}

abbrev pub marker : Text
marker = codes "- insert:"

pub after_insert-hit :
    (l : Text) (ls : List Text) → same l marker ≡ true → after_insert (l ∷ ls) ≡ some ls
unfolding after_insert
after_insert-hit l ls h = rw h

pub after_insert-miss :
    (l : Text) (ls : List Text) → same l marker ≡ false → after_insert (l ∷ ls) ≡ after_insert ls
unfolding after_insert
after_insert-miss l ls h = rw h

-- The marker's place: its first occurrence.
pub after_insert-parts :
    (ls body : List Text)
    → after_insert ls ≡ some body
    → (above : List Text) × (ls ≡ above ++ (marker ∷ body)) × All (λ l. l ≢ marker) above
after_insert-parts [] body h = absurd (unfold after_insert in cc)
after_insert-parts (l ∷ ls) body h = elim (Bool-cases (same l marker)) [
  | inl e ↦
      let at : ls ≡ body = cc (after_insert-hit l ls e, h) in
      ([], cc ((same_iff l marker).0 e, at), tt)
  | inr e ↦
      let (above, parts, none_above) =
        after_insert-parts ls body (sym (after_insert-miss l ls e) ∙ h) in
      (l ∷ above, ap (λ t. l ∷ t) parts, (λ eq. cc ((same_iff l marker).1 eq, e), none_above))
]

abbrev but_last : Text → Text
but_last [] = []
but_last (c ∷ []) = []
but_last (c ∷ d ∷ s) = c ∷ but_last (d ∷ s)

after_insert-header :
    (rest : Text) → after_insert (split b'\n' (header ++ rest)) ≡ some (split b'\n' rest)
after_insert-header rest =
    ap after_insert (
      ap (split b'\n') (append_assoc (but_last header) (b'\n' ∷ []) rest)
      ∙ split-append b'\n' (but_last header) rest)
    ∙ behind_marker (split b'\n' rest)
  where
    behind_marker : (ls : List Text) → after_insert (split b'\n' (but_last header) ++ ls) ≡ some ls
    behind_marker ls = unfold after_insert split in refl

-- A rendered bundle holds the texts of the kept rows, and opens their ids.
pub ids_of-render :
    (body : List Text)
    → All (Free b'\n') body
    → (out : List Text) × (after_insert (split b'\n' (render (rows body))) ≡ some out)
      × (ids_of out ≡ filter (λ id. not (has drop_ids id)) (ids_of body))
      × ((ts : List Text) × Printed (filter (λ (b : Block). not (has drop_ids b.id)) (rows body)) ts
          × (out ≡ separated ts))
unfolding render kept
ids_of-render body f =
    let bs = filter (λ (b : Block). not (has drop_ids b.id)) (rows body) in
    let texts = join_rows (map row_text bs) in
    (
      split b'\n' (texts ++ codes "\n"),
      after_insert-header (texts ++ codes "\n"),
      ids_of-break texts []
          ∙ ap (λ l. ids_of (split b'\n' texts) ++ l) ids_of_empty
          ∙ append-nil (ids_of (split b'\n' texts))
          ∙ ids_of-join_rows bs
              (All-filter_of IsClean (λ b. not (has drop_ids b.id)) (rows body) (rows-Clean body f))
          ∙ ids-kept (rows body)
          ∙ ap (filter (λ id. not (has drop_ids id))) (ids-rows body),
      (map row_text bs, row_text-Printed bs, split-join_rows (map row_text bs)),
    )
