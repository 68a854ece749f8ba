-- ===== src/Overlay/Stopped.antt =====
-- web/apply-overlay.mjs: where a run that throws stopped, and what it left.
use attested_harness.Common.{
  Option-cases, some, none, ◌≡◌, refl, ◌∙◌, inl, inr, List, [], ◌∷◌, Text, All, sym, ap, subst,
  ◌++◌,
}
use attested_harness.Overlay.Splice.{Stuck}
use attested_harness.Overlay.{
  anchor_missing, no_file, Transform, copy, patch, put, edit, write_file, Tree, read_file, Failure,
  Outcome, done, thrown, Op, run_op, run,
}
use attested_harness.Overlay.Edit.{EditSpec, unreadable, refused, patched, edit-EditSpec}
use attested_harness.Overlay.Run.{Outcome-cases, run-done, run-thrown}
use attested_harness.Overlay.Ready.{PlainOp}

module _ (own : Tree) where
  run-cons_done :
      (op : Op) (ops : List Op) (tree next end : Tree)
      → run_op own op tree ≡ done next
      → run own ops next ≡ done end
      → run own (op ∷ ops) tree ≡ done end
  run-cons_done op ops tree next end e h = run-done own op ops tree next e ∙ h

  -- Why a statement fails over a tree, and with which error: the overlay has no such file; the tree
  -- has none; or, with the replacements before it made, the anchor of a transform is not there.
  pub data Fails (tree : Tree) : Op → Failure → Type 0 where
    not_own :
        (rel source : Text)
        → read_file source own ≡ none
        → Fails tree (copy rel source) (no_file source)
    not_there :
        (rel : Text) (ts : List Transform)
        → read_file rel tree ≡ none
        → Fails tree (patch rel ts) (no_file rel)
    no_anchor :
        (rel src label : Text) (ts : List Transform)
        → read_file rel tree ≡ some src
        → Stuck ts src label
        → Fails tree (patch rel ts) (anchor_missing rel label)

  -- Where a run stopped: the statements before the failing one succeeded, and left the tree.
  pub record Stopped (ops : List Op) (tree : Tree) (f : Failure) (end : Tree) : Type 0 where
    pub ran : List Op
    pub at_op : Op
    pub never : List Op
    pub parts : ops ≡ ran ++ (at_op ∷ never)
    pub ran_before : run own ran tree ≡ done end
    pub fails : Fails end at_op f

  EditSpec-Fails :
      (rel : Text) (ts : List Transform) (tree end : Tree) (o : Outcome) (f : Failure)
      → EditSpec rel ts tree o
      → o ≡ thrown f end
      → (tree ≡ end) × Fails tree (patch rel ts) f
  EditSpec-Fails rel ts tree end o f (unreadable gone) h =
      let why : no_file rel ≡ f = cc in
      (cc, subst (Fails tree (patch rel ts)) why (not_there rel ts gone))
  EditSpec-Fails rel ts tree end o f (refused src label at_rel stuck) h =
      let why : anchor_missing rel label ≡ f = cc in
      (cc, subst (Fails tree (patch rel ts)) why (no_anchor rel src label ts at_rel stuck))
  EditSpec-Fails rel ts tree end o f (patched src out tree' at_rel applies now others) h =
      absurd (cc)

  put-Fails :
      (rel source : Text) (tree end : Tree) (f : Failure)
      → put own rel source tree ≡ thrown f end
      → (tree ≡ end) × Fails tree (copy rel source) f
  unfolding put
  put-Fails rel source tree end f h = elim (Option-cases (read_file source own)) [
    | inl gone ↦
        let at_none : thrown (no_file source) tree ≡ thrown f end = rw gone at h in
        let why : no_file source ≡ f = cc in
        (cc, subst (Fails tree (copy rel source)) why (not_own rel source gone))
    | inr (body, there') ↦ absurd (put_succeeds (write_file rel body tree) (rw there' at h))
  ]
    where
      put_succeeds : (t : Tree) → done t ≡ thrown f end → ⊥
      put_succeeds t e = cc

  run_op-Fails :
      (op : Op) (tree end : Tree) (f : Failure)
      → PlainOp op
      → run_op own op tree ≡ thrown f end
      → (tree ≡ end) × Fails tree op f
  unfolding run_op
  run_op-Fails (copy rel source) tree end f plain h = put-Fails rel source tree end f h
  run_op-Fails (patch rel ts) tree end f plain h =
      EditSpec-Fails rel ts tree end (edit rel ts tree) f (edit-EditSpec rel ts tree plain) h

  Stopped-later :
      {op : Op} {ops : List Op} {tree next end : Tree} {f : Failure}
      → run_op own op tree ≡ done next
      → Stopped ops next f end
      → Stopped (op ∷ ops) tree f end
  Stopped-later {op} {tree = tree} {next = next} {end = end} e h = record {
    ran = op ∷ h.ran;
    at_op = h.at_op;
    never = h.never;
    parts = ap (λ l. op ∷ l) h.parts;
    ran_before = run-cons_done op h.ran tree next end e h.ran_before;
    fails = h.fails;
  }

  Stopped-here :
      (op : Op) (ops : List Op) (tree end : Tree) (f : Failure)
      → (tree ≡ end) × Fails tree op f
      → Stopped (op ∷ ops) tree f end
  Stopped-here op ops tree end f (untouched, why) = record {
    ran = [];
    at_op = op;
    never = ops;
    parts = refl;
    ran_before = unfold run in ap done untouched;
    fails = subst (λ t. Fails t op f) untouched why;
  }

  -- A run of statements whose replacements have no dollar and that throws leaves exactly the tree
  -- of the statements before the failing one, each of which succeeded; and the failing one threw
  -- because the overlay does not have the file that it copies, or because, over that tree, the file
  -- that it edits or the anchor of one of its transforms is missing, which the error names.
  pub run-Stopped :
      (ops : List Op) (tree end : Tree) (f : Failure)
      → All PlainOp ops
      → run own ops tree ≡ thrown f end
      → Stopped ops tree f end
  run-Stopped [] tree end f plain h = absurd (unfold run in cc)
  run-Stopped (op ∷ ops) tree end f (plain, plains) h = elim (Outcome-cases (run_op own op tree)) [
    | inl (next, e) ↦
        Stopped-later e
          (run-Stopped ops next end f plains (sym (run-done own op ops tree next e) ∙ h))
    | inr (g, next, e) ↦
        Stopped-here op ops tree end f
          (run_op-Fails op tree end f plain (e ∙ sym (run-thrown own op ops tree next g e) ∙ h))
  ]
