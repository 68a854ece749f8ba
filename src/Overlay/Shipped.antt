-- ===== src/Overlay/Shipped.antt =====
-- web/apply-overlay.mjs: what the built tree holds when the whole script has run to its end.
use attested_harness.Common.{
  ◌≡◌, sym, ◌≢◌, ap, ◌∙◌, inl, inr, Bool, true, not, ◌&&◌, some, List, [], ◌∷◌, ◌++◌, Text, arith,
  All, all, same, same_iff, Bool-cases, Option-cases, &&_parts,
}
use attested_harness.Overlay.{
  Tree, read_file, write_file, Outcome, done, Transform, edit, put, put_source, Op, copy, patch,
  run_op, then_run, run,
}
use attested_harness.Overlay.Splice.{Applies, IsPlain}
use attested_harness.Overlay.Edit.{
  EditSpec, unreadable, refused, patched, edit-EditSpec, target, read_file-written,
}
use attested_harness.Overlay.Run.{Outcome-cases, run-done, run-thrown, run-untouched}
use attested_harness.Overlay.FailClosed.{run-append}

-- No file that a statement copies is written again by a later one.
abbrev pub keeps_copies : List Op → Bool
keeps_copies [] = true
keeps_copies (copy rel source ∷ ops) =
    all (λ op. not (same rel (target op))) ops && keeps_copies ops
keeps_copies (patch rel ts ∷ ops) = keeps_copies ops

not-same : (s t : Text) → not (same s t) ≡ true → s ≢ t
not-same s t h e = elim (Bool-cases (same s t)) [
  | inl eq ↦ ground arith
  | inr ne ↦ cc (ne, (same_iff s t).1 e)
]

pub others_of_all :
    (rel : Text) (ops : List Op)
    → all (λ op. not (same rel (target op))) ops ≡ true
    → All (λ op. rel ≢ target op) ops
others_of_all rel [] h = tt
others_of_all rel (op ∷ ops) h =
    let (here, later) = &&_parts _ _ h in
    (not-same rel (target op) here, others_of_all rel ops later)

module _ (own : Tree) where
  -- The file at the path is the overlay's own file.
  abbrev pub IsShipped : Tree → Op → Type 0
  IsShipped end (copy rel source) =
      (body : Text) × (read_file source own ≡ some body) × (read_file rel end ≡ some body)
  IsShipped end (patch rel ts) = Unit

  put-done :
      (rel source : Text) (tree next : Tree)
      → put own rel source tree ≡ done next
      → (body : Text) × (read_file source own ≡ some body) × (read_file rel next ≡ some body)
  unfolding put
  put-done rel source tree next h = elim (Option-cases (read_file source own)) [
    | inl gone ↦ absurd (cc (ap (put_source rel source tree) gone, h))
    | inr (body, e) ↦
        let written : write_file rel body tree ≡ next = cc (ap (put_source rel source tree) e, h) in
        (body, e, rw (← written) (read_file-written rel body tree))
  ]

  done_of_step :
      (op : Op) (ops : List Op) (tree end : Tree)
      → run own (op ∷ ops) tree ≡ done end
      → (next : Tree) × (run_op own op tree ≡ done next) × (run own ops next ≡ done end)
  done_of_step op ops tree end h = elim (Outcome-cases (run_op own op tree)) [
    | inl (next, e) ↦ (next, e, sym (run-done own op ops tree next e) ∙ h)
    | inr (f, next, e) ↦ absurd (cc (run-thrown own op ops tree next f e, h))
  ]

  untouched_of_done :
      (ops : List Op) (tree end : Tree) (path : Text)
      → run own ops tree ≡ done end
      → All (λ op. path ≢ target op) ops
      → read_file path end ≡ read_file path tree
  untouched_of_done ops tree end path h others = rw h at (run-untouched own ops tree path others)

  -- When the run ends well, every file that a statement copies is the overlay's own file, as long
  -- as no later statement writes it again.
  pub run-IsShipped :
      (ops : List Op) (tree end : Tree)
      → keeps_copies ops ≡ true
      → run own ops tree ≡ done end
      → All (IsShipped end) ops
  run-IsShipped [] tree end kept h = tt
  run-IsShipped (copy rel source ∷ ops) tree end kept h =
      let (next, e, rest) = done_of_step (copy rel source) ops tree end h in
      let (others, kept') = &&_parts _ _ kept in
      let (body, from_own, at_rel) = put-done rel source tree next (unfold run_op in e) in
      let last = untouched_of_done ops next end rel rest (others_of_all rel ops others) in
      ((body, from_own, last ∙ at_rel), run-IsShipped ops next end kept' rest)
  run-IsShipped (patch rel ts ∷ ops) tree end kept h =
      let (next, e, rest) = done_of_step (patch rel ts) ops tree end h in
      (tt, run-IsShipped ops next end kept rest)

  -- The file that a successful `edit` leaves.
  edit-done :
      (rel : Text) (ts : List Transform) (tree next : Tree) (o : Outcome)
      → EditSpec rel ts tree o
      → o ≡ done next
      → (src : Text) × (out : Text) × (read_file rel tree ≡ some src)
        × Applies ts src out
        × (read_file rel next ≡ some out)
  edit-done rel ts tree next o (unreadable gone) h = absurd (cc)
  edit-done rel ts tree next o (refused src label at_rel stuck) h = absurd (cc)
  edit-done rel ts tree next o (patched src out tree' at_rel applied written agree) h =
      let e : tree' ≡ next = cc in (src, out, at_rel, applied, rw (← e) written)

  -- When the run ends well, a file that one statement alone writes, by an `edit`, holds what the
  -- transforms make of the text that it had at the start, each anchor found in its turn.
  pub run-patched :
      (ops later : List Op) (rel : Text) (ts : List Transform) (tree end : Tree)
      → IsPlain ts
      → All (λ op. rel ≢ target op) ops
      → All (λ op. rel ≢ target op) later
      → run own (ops ++ (patch rel ts ∷ later)) tree ≡ done end
      → (src : Text) × (out : Text) × (read_file rel tree ≡ some src)
        × Applies ts src out
        × (read_file rel end ≡ some out)
  run-patched ops later rel ts tree end plain before after h =
      elim (Outcome-cases (run own ops tree)) [
        | inl (mid, e) ↦
            let split' = run-append own ops (patch rel ts ∷ later) tree in
            let rest : run own (patch rel ts ∷ later) mid ≡ done end =
              ap (λ o. then_run o (run own (patch rel ts ∷ later))) (sym e) ∙ sym split' ∙ h in
            let (next, patched', rest') = done_of_step (patch rel ts) later mid end rest in
            let (src, out, at_rel, applied, written) =
              edit-done rel ts mid next (edit rel ts mid) (edit-EditSpec rel ts mid plain)
                (unfold run_op in patched') in
            (
              src,
              out,
              sym (untouched_of_done ops tree mid rel e before) ∙ at_rel,
              applied,
              untouched_of_done later next end rel rest' after ∙ written,
            )
        | inr (f, next, e) ↦ absurd (cc (run-append own ops (patch rel ts ∷ later) tree, e, h))
      ]
