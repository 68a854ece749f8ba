-- ===== src/Bundle/Content.antt =====
-- web/gen-bundle.mjs: the texts of the rows in the generated bundle.
use attested_harness.Common.{
  ◌≡◌, refl, ap, ◌∙◌, inl, inr, List, [], ◌∷◌, ◌++◌, append_assoc, map, Text, codes, all, is_space,
  trim_cons, trim_end, split, split-append, join, Bool-cases, ℕ, true,
}
use attested_harness.Bundle.{Block, row_text, join_rows}
use attested_harness.Bundle.Spaces.{trim_end-parts}

-- What a row becomes: all its lines, without the white space at their end.
pub record IsTextOf (b : Block) (t : Text) : Type 0 where
  pub trailing : Text
  pub whole : join b'\n' b.lines ≡ t ++ trailing
  pub blank : all is_space trailing ≡ true
  pub trimmed : trim_end t ≡ t

-- Each row has its text, in order.
pub data Printed : List Block → List Text → Type 0 where
  no_rows : Printed [] []
  row :
      {b : Block} {bs : List Block} {t : Text} {ts : List Text}
      → IsTextOf b t
      → Printed bs ts
      → Printed (b ∷ bs) (t ∷ ts)

-- The lines behind the first text: an empty line before each further text, and one at the end.
abbrev separated_more : List Text → List Text
separated_more [] = [] ∷ []
separated_more (t ∷ ts) = [] ∷ (split b'\n' t ++ separated_more ts)

-- The lines of the texts, with an empty line between two of them.
abbrev pub separated : List Text → List Text
separated [] = [] ∷ [] ∷ []
separated (t ∷ ts) = split b'\n' t ++ separated_more ts

trim_cons-again : (c : ℕ) (t : Text) → trim_end t ≡ t → trim_end (trim_cons c t) ≡ trim_cons c t
unfolding trim_end
trim_cons-again c [] h = elim (Bool-cases (is_space c)) [
  | inl blank' ↦ rw blank' refl
  | inr solid ↦ rw (solid, trim_end, trim_cons, solid) refl
]
trim_cons-again c (d ∷ t) h = ap (trim_cons c) h

trim_end-again : (s : Text) → trim_end (trim_end s) ≡ trim_end s
unfolding trim_end
trim_end-again [] = refl
trim_end-again (c ∷ s) = trim_cons-again c (trim_end s) (trim_end-again s)

row_text-IsTextOf : (b : Block) → IsTextOf b (row_text b)
unfolding row_text
row_text-IsTextOf b =
    let (spaces, e, h) = trim_end-parts (join b'\n' b.lines) in
    record {
      trailing = spaces;
      whole = e;
      blank = h;
      trimmed = trim_end-again (join b'\n' b.lines);
    }

pub row_text-Printed : (bs : List Block) → Printed bs (map row_text bs)
row_text-Printed [] = no_rows
row_text-Printed (b ∷ bs) = row (row_text-IsTextOf b) (row_text-Printed bs)

split_empty : split b'\n' [] ≡ [] ∷ []
unfolding split
split_empty = refl

-- The lines of the joined texts.
pub split-join_rows : (ts : List Text) → split b'\n' (join_rows ts ++ codes "\n") ≡ separated ts
unfolding join_rows
split-join_rows [] = unfold split in refl
split-join_rows (t ∷ []) = split-append b'\n' t [] ∙ ap (λ l. split b'\n' t ++ l) split_empty
split-join_rows (t ∷ u ∷ ts) =
    let rest = join_rows (u ∷ ts) ++ codes "\n" in
    ap (split b'\n') (append_assoc t (b'\n' ∷ b'\n' ∷ join_rows (u ∷ ts)) (codes "\n"))
    ∙ split-append b'\n' t (b'\n' ∷ rest)
    ∙ ap (λ l. split b'\n' t ++ l)
        (split-append b'\n' [] rest
          ∙ ap (λ l. l ++ split b'\n' rest) split_empty
          ∙ ap (λ l. [] ∷ l) (split-join_rows (u ∷ ts)))
