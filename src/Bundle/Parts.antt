-- ===== src/Bundle/Parts.antt =====
-- web/gen-bundle.mjs: the shape of each row, and what is left behind the last one.
use attested_harness.Common.{
  ◌≡◌, refl, ap, ◌∙◌, ◌⊎◌, inl, inr, Bool, true, false, Option, none, some, List, [], ◌∷◌, ◌++◌,
  append_assoc, Text, All, All-append,
}
use attested_harness.Bundle.{
  row_id, is_gap, Block, Scan, start, close, body_line, scan_line, scan, scan_all, rows,
}
use attested_harness.Bundle.Rows.{flat, open_lines, held-scan_all, flat-close}

abbrev pub OpensNone : Text → Type 0
OpensNone line = row_id line ≡ none

abbrev pub IsGap : Text → Type 0
IsGap line = is_gap line ≡ true

-- A block is one row: a single line opens it, with the block's id.
pub record IsRow (b : Block) : Type 0 where
  pub above : List Text
  pub opener : Text
  pub below : List Text
  pub parts : b.lines ≡ above ++ (opener ∷ below)
  pub opens : row_id opener ≡ some b.id
  pub none_above : All OpensNone above
  pub none_below : All OpensNone below

IsRow-extend :
    (b : Block) (more : List Text)
    → IsRow b
    → All OpensNone more
    → IsRow (record b { lines = b.lines ++ more })
IsRow-extend b more r h = record {
  above = r.above;
  opener = r.opener;
  below = r.below ++ more;
  parts = ap (λ l. l ++ more) r.parts ∙ append_assoc r.above (r.opener ∷ r.below) more;
  opens = r.opens;
  none_above = r.none_above;
  none_below = All-append OpensNone r.below more r.none_below h;
}

-- Before the first row there is no block; behind it only gap lines are pending.
abbrev CurrentGood : List Block → List Text → Option Block → Type 0
CurrentGood blocks pending none = blocks ≡ []
CurrentGood blocks pending (some b) = IsRow b × All IsGap pending

record Good (s : Scan) : Type 0 where
  rows_closed : All IsRow s.blocks
  none_pending : All OpensNone s.pending
  current_good : CurrentGood s.blocks s.pending s.current

close-Good :
    (blocks : List Block) (pending : List Text) (cur : Option Block)
    → All IsRow blocks
    → CurrentGood blocks pending cur
    → All IsRow (close blocks cur)
close-Good blocks pending none h c = h
close-Good blocks pending (some b) h (r, _) = All-append IsRow blocks (b ∷ []) h (r, tt)

body_line-Good :
    (blocks : List Block) (pending : List Text) (cur : Option Block) (line : Text) (gap : Bool)
    → All IsRow blocks
    → All OpensNone pending
    → CurrentGood blocks pending cur
    → row_id line ≡ none
    → is_gap line ≡ gap
    → Good (body_line blocks pending cur gap line)
body_line-Good blocks pending none line gap h p c opens e = record {
  rows_closed = h;
  none_pending = All-append OpensNone pending (line ∷ []) p (opens, tt);
  current_good = c;
}
body_line-Good blocks pending (some b) line true h p (r, g) opens e = record {
  rows_closed = h;
  none_pending = All-append OpensNone pending (line ∷ []) p (opens, tt);
  current_good = (r, All-append IsGap pending (line ∷ []) g (e, tt));
}
body_line-Good blocks pending (some b) line false h p (r, g) opens e = record {
  rows_closed = h;
  none_pending = tt;
  current_good = (
    IsRow-extend b (pending ++ (line ∷ [])) r
        (All-append OpensNone pending (line ∷ []) p (opens, tt)),
    tt,
  );
}

scan_line-Good :
    (s : Scan) (line : Text) (o : Option Text)
    → Good s
    → row_id line ≡ o
    → Good (scan_line s line o)
scan_line-Good s line none g e =
    body_line-Good s.blocks s.pending s.current line (is_gap line) g.rows_closed g.none_pending
      g.current_good e refl
scan_line-Good s line (some id) g e = record {
  rows_closed = close-Good s.blocks s.pending s.current g.rows_closed g.current_good;
  none_pending = tt;
  current_good = (
    record {
      above = s.pending;
      opener = line;
      below = [];
      parts = refl;
      opens = e;
      none_above = g.none_pending;
      none_below = tt;
    },
    tt,
  );
}

scan_all-Good : (s : Scan) (body : List Text) → Good s → Good (scan_all s body)
unfolding scan_all scan
scan_all-Good s [] g = g
scan_all-Good s (line ∷ body) g =
    scan_all-Good (scan s line) body (scan_line-Good s line (row_id line) g refl)

start-Good : Good start
start-Good = record { rows_closed = tt; none_pending = tt; current_good = refl }

gaps_or_none :
    (blocks : List Block) (pending : List Text) (cur : Option Block)
    → CurrentGood blocks pending cur
    → All IsGap pending ⊎ (close blocks cur ≡ [])
gaps_or_none blocks pending none c = inr c
gaps_or_none blocks pending (some b) (r, g) = inl g

-- Every block is one row: a single line opens it. In order, the blocks hold every line of the body
-- but a tail, which opens no row, and which holds only blank lines and comments unless there is no
-- row at all.
pub rows-IsRow :
    (body : List Text)
    → All IsRow (rows body)
      × ((tail : List Text) × (flat (rows body) ++ tail ≡ body)
          × All OpensNone tail
          × (All IsGap tail ⊎ (rows body ≡ [])))
unfolding rows
rows-IsRow body =
    let s = scan_all start body in
    let g = scan_all-Good start body start-Good in
    (
      close-Good s.blocks s.pending s.current g.rows_closed g.current_good,
      (
        s.pending,
        ap (λ l. l ++ s.pending) (flat-close s.blocks s.current)
            ∙ append_assoc (flat s.blocks) (open_lines s.current) s.pending
            ∙ held-scan_all start body,
        g.none_pending,
        gaps_or_none s.blocks s.pending s.current g.current_good,
      ),
    )
