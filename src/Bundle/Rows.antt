-- ===== src/Bundle/Rows.antt =====
-- web/gen-bundle.mjs: how the lines of the upstream bundle are divided among its rows.
use mathlib.Core.List.{map-append}
use attested_harness.Common.{
  ◌≡◌, refl, sym, ap, ◌∙◌, Bool, true, false, Option, none, some, List, [], ◌∷◌, ◌++◌, append-nil,
  append_assoc, map, Text,
}
use attested_harness.Bundle.{
  row_id, is_gap, Block, Scan, start, close, body_line, scan_line, scan, scan_all, rows,
}

abbrev pub flat : List Block → List Text
flat [] = []
flat (b ∷ bs) = b.lines ++ flat bs

abbrev pub open_lines : Option Block → List Text
open_lines none = []
open_lines (some b) = b.lines

-- The lines that a state holds, in their order.
abbrev pub held : Scan → List Text
held s = flat s.blocks ++ (open_lines s.current ++ s.pending)

flat-append : (bs cs : List Block) → flat (bs ++ cs) ≡ flat bs ++ flat cs
flat-append [] cs = refl
flat-append (b ∷ bs) cs = rw (flat-append bs cs) (sym (append_assoc b.lines (flat bs) (flat cs)))

pub flat-close :
    (bs : List Block) (cur : Option Block) → flat (close bs cur) ≡ flat bs ++ open_lines cur
flat-close bs none = sym (append-nil (flat bs))
flat-close bs (some b) = flat-append bs (b ∷ []) ∙ ap (λ l. flat bs ++ l) (append-nil b.lines)

held-body_line :
    (bs : List Block) (pending : List Text) (cur : Option Block) (gap : Bool) (line : Text)
    → held (body_line bs pending cur gap line)
      ≡ (flat bs ++ (open_lines cur ++ pending)) ++ (line ∷ [])
held-body_line bs pending none gap line = simp append_assoc
held-body_line bs pending (some b) true line = simp append_assoc
held-body_line bs pending (some b) false line = simp (append_assoc, append-nil)

held-scan_line :
    (s : Scan) (line : Text) (o : Option Text) → held (scan_line s line o) ≡ held s ++ (line ∷ [])
held-scan_line s line none = held-body_line s.blocks s.pending s.current (is_gap line) line
held-scan_line s line (some id) = simp (flat-close, append_assoc, append-nil)

pub held-scan_all : (s : Scan) (body : List Text) → held (scan_all s body) ≡ held s ++ body
unfolding scan_all scan
held-scan_all s [] = sym (append-nil (held s))
held-scan_all s (line ∷ body) =
    held-scan_all (scan s line) body
    ∙ ap (λ l. l ++ body) (held-scan_line s line (row_id line))
    ∙ append_assoc (held s) (line ∷ []) body

-- The ids that the lines open, in their order: what a reader of the file sees.
abbrev pub add_id : Option Text → List Text → List Text
add_id none ids = ids
add_id (some id) ids = id ∷ ids

unfoldable pub ids_of : List Text → List Text
ids_of [] = []
ids_of (line ∷ body) = add_id (row_id line) (ids_of body)

abbrev open_id : Option Block → List Text
open_id none = []
open_id (some b) = b.id ∷ []

-- The ids of a state, in their order.
abbrev ids_held : Scan → List Text
ids_held s = map (λ b. b.id) s.blocks ++ open_id s.current

ids-close :
    (bs : List Block) (cur : Option Block)
    → map (λ b. b.id) (close bs cur) ≡ map (λ b. b.id) bs ++ open_id cur
ids-close bs none = sym (append-nil _)
ids-close bs (some b) = map-append (λ b. b.id) bs (b ∷ [])

ids-body_line :
    (bs : List Block) (pending : List Text) (cur : Option Block) (gap : Bool) (line : Text)
    → ids_held (body_line bs pending cur gap line) ≡ map (λ b. b.id) bs ++ open_id cur
ids-body_line bs pending none gap line = refl
ids-body_line bs pending (some b) true line = refl
ids-body_line bs pending (some b) false line = refl

ids-scan_line :
    (s : Scan) (line : Text) (o : Option Text)
    → ids_held (scan_line s line o) ≡ ids_held s ++ add_id o []
ids-scan_line s line none =
    ids-body_line s.blocks s.pending s.current (is_gap line) line ∙ sym (append-nil _)
ids-scan_line s line (some id) = ap (λ l. l ++ (id ∷ [])) (ids-close s.blocks s.current)

add_id-append : (o : Option Text) (ids : List Text) → add_id o [] ++ ids ≡ add_id o ids
add_id-append none ids = refl
add_id-append (some id) ids = refl

ids-scan_all :
    (s : Scan) (body : List Text) → ids_held (scan_all s body) ≡ ids_held s ++ ids_of body
unfolding scan_all scan ids_of
ids-scan_all s [] = sym (append-nil (ids_held s))
ids-scan_all s (line ∷ body) =
    ids-scan_all (scan s line) body
    ∙ ap (λ l. l ++ ids_of body) (ids-scan_line s line (row_id line))
    ∙ append_assoc (ids_held s) (add_id (row_id line) []) (ids_of body)
    ∙ ap (λ l. ids_held s ++ l) (add_id-append (row_id line) (ids_of body))

-- The rows' ids are those that the lines open, in their order: no row is lost, invented, merged or
-- moved.
pub ids-rows : (body : List Text) → map (λ b. b.id) (rows body) ≡ ids_of body
unfolding rows
ids-rows body =
    ids-close (scan_all start body).blocks (scan_all start body).current ∙ ids-scan_all start body
