-- ===== src/Bundle/Tests.antt =====
-- The bundle generator at concrete texts.
use attested_harness.Common.{
  ◌≡◌, refl, List, [], ◌∷◌, ◌++◌, map, All, Text, codes, text, strip_prefix, split, join, is_space,
  ◌⊎◌, trim_end,
}
use attested_harness.Bundle.{
  drop_ids, rows, row_id, is_gap, generate, Generated, written, failed, not_in_base,
  no_insert_block, render, join_rows, row_text, kept,
}
use attested_harness.Bundle.Rows.{ids_of, ids-rows, flat}
use attested_harness.Bundle.Parts.{IsRow, OpensNone, IsGap, rows-IsRow}
use attested_harness.Bundle.Outcome.{GenSpec, generate-GenSpec, generate_again}

tested : Unit {0}
unfolding generate rows kept render join_rows row_text trim_end join split is_space strip_prefix
    row_id is_gap
tested = tt

abbrev rows_for : List Text → Text
rows_for [] = []
rows_for (id ∷ ids) = codes "    - id: " ++ (id ++ (codes "\n      name: x\n\n" ++ rows_for ids))

-- An upstream bundle with every dropped row and two others.
abbrev base : Text
base =
    text (
      "# dsh-base\n" ∷ "- remove: []\n" ∷ "- insert:\n" ∷ "    # the agent loop\n"
      ∷ "    - id: agent-loop\n" ∷ "      name: loop\n" ∷ "\n" ∷ [])
    ++ (rows_for drop_ids ++ codes "    # the shell\n    - id: shell\n      name: sh\n\n")

abbrev bundle_text : Generated → Text
bundle_text (written out) = out
bundle_text (failed e) = []

abbrev bundle : Text
bundle = bundle_text (generate base)

base_generates : generate base ≡ written bundle
unfolding tested
base_generates = refl

abbrev body_lines : List Text
body_lines =
    codes "    # first"
    ∷ codes "    - id: a"
    ∷ codes "      name: x"
    ∷ codes ""
    ∷ codes "    # second"
    ∷ codes "    - id: b"
    ∷ codes ""
    ∷ []

two_rows :
    rows body_lines
    ≡ record {
      id = codes "a";
      lines = codes "    # first" ∷ codes "    - id: a" ∷ codes "      name: x" ∷ [];
    }
      ∷ record {
        id = codes "b";
        lines = codes "" ∷ codes "    # second" ∷ codes "    - id: b" ∷ [];
      }
      ∷ []
unfolding tested
two_rows = refl

rows-IsRow_example :
    All IsRow (rows body_lines)
    × ((tail : List Text) × (flat (rows body_lines) ++ tail ≡ body_lines)
        × All OpensNone tail
        × (All IsGap tail ⊎ (rows body_lines ≡ [])))
rows-IsRow_example = rows-IsRow body_lines

ids-rows_example : map (λ b. b.id) (rows body_lines) ≡ ids_of body_lines
ids-rows_example = ids-rows body_lines

generate-GenSpec_example : GenSpec base (generate base)
generate-GenSpec_example = generate-GenSpec base

generate_again_example : generate bundle ≡ failed (not_in_base drop_ids)
generate_again_example = generate_again base bundle base_generates

no_marker_test : generate (codes "- remove: []") ≡ failed no_insert_block
unfolding tested
no_marker_test = refl
