-- ===== src/Overlay/Run.antt =====
-- web/apply-overlay.mjs: the whole script as one run of its statements.
use attested_harness.Common.{◌≡◌, refl, ◌≢◌, ◌∙◌, ◌⊎◌, inl, inr, List, [], ◌∷◌, Text, All}
use attested_harness.Overlay.{
  Tree, read_file, Failure, Outcome, done, thrown, Op, run_op, then_run, run,
}
use attested_harness.Overlay.Edit.{target, tree_of, run_op-AgreeBut}

pub Outcome-cases :
    (o : Outcome) → ((t : Tree) × (o ≡ done t)) ⊎ ((e : Failure) × (t : Tree) × (o ≡ thrown e t))
Outcome-cases (done t) = inl (t, refl)
Outcome-cases (thrown e t) = inr (e, t, refl)

module _ (own : Tree) where
  pub run-done :
      (op : Op) (ops : List Op) (tree next : Tree)
      → run_op own op tree ≡ done next
      → run own (op ∷ ops) tree ≡ run own ops next
  unfolding run
  run-done op ops tree next e = rw (e, then_run)

  pub run-thrown :
      (op : Op) (ops : List Op) (tree next : Tree) (f : Failure)
      → run_op own op tree ≡ thrown f next
      → run own (op ∷ ops) tree ≡ thrown f next
  unfolding run
  run-thrown op ops tree next f e = rw (e, then_run)

  -- A path that no statement names reads after the run as before it, also where the run threw.
  pub run-untouched :
      (ops : List Op) (tree : Tree) (path : Text)
      → All (λ op. path ≢ target op) ops
      → read_file path (tree_of (run own ops tree)) ≡ read_file path tree
  run-untouched [] tree path h = unfold run in refl
  run-untouched (op ∷ ops) tree path (other, others) = elim (Outcome-cases (run_op own op tree)) [
    | inl (next, e) ↦
        rw (run-done op ops tree next e)
          (run-untouched ops next path others ∙ rw e at (run_op-AgreeBut own op tree path other))
    | inr (f, next, e) ↦
        rw (run-thrown op ops tree next f e) (rw e at (run_op-AgreeBut own op tree path other))
  ]
