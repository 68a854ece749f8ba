-- ===== src/Overlay/FailClosed.antt =====
-- web/apply-overlay.mjs: a moved anchor stops the build, and a copied file is what the tree ships.
use attested_harness.Common.{
  ◌≡◌, refl, sym, ◌≢◌, ap, ◌∙◌, inl, inr, some, List, [], ◌∷◌, ◌++◌, Text, All,
}
use attested_harness.Overlay.{
  Tree, read_file, anchor_missing, done, thrown, Transform, edit_source, edit, Op, patch, run_op,
  then_run, run,
}
use attested_harness.Overlay.Splice.{stuck_here, IsPlain, Absent, transform_all-Stuck}
use attested_harness.Overlay.Edit.{target}
use attested_harness.Overlay.Run.{Outcome-cases, run-done, run-thrown, run-untouched}

module _ (own : Tree) where
  pub run-append :
      (ops more : List Op) (tree : Tree)
      → run own (ops ++ more) tree ≡ then_run (run own ops tree) (run own more)
  run-append [] more tree = unfold run in refl
  run-append (op ∷ ops) more tree = elim (Outcome-cases (run_op own op tree)) [
    | inl (next, e) ↦
        run-done own op (ops ++ more) tree next e
        ∙ run-append ops more next
        ∙ ap (λ o. then_run o (run own more)) (sym (run-done own op ops tree next e))
    | inr (f, next, e) ↦
        run-thrown own op (ops ++ more) tree next f e
        ∙ ap (λ o. then_run o (run own more)) (sym (run-thrown own op ops tree next f e))
  ]

  edit-Absent :
      (rel src : Text) (t : Transform) (ts : List Transform) (tree : Tree)
      → IsPlain (t ∷ ts)
      → read_file rel tree ≡ some src
      → Absent t.find src
      → edit rel (t ∷ ts) tree ≡ thrown (anchor_missing rel t.label) tree
  unfolding edit
  edit-Absent rel src t ts tree plain at_rel gone =
      rw (at_rel, edit_source)
        (rw (transform_all-Stuck (t ∷ ts) src t.label plain (stuck_here gone refl)))

  -- A patch whose first anchor does not stand in the file that the tree came with stops the run:
  -- no run that contains it ends well, whatever stands before it, as long as that writes other
  -- files.
  pub run-ne-done_of_Absent :
      (ops later : List Op) (rel src : Text) (t : Transform) (ts : List Transform) (tree end : Tree)
      → IsPlain (t ∷ ts)
      → All (λ op. rel ≢ target op) ops
      → read_file rel tree ≡ some src
      → Absent t.find src
      → run own (ops ++ (patch rel (t ∷ ts) ∷ later)) tree ≢ done end
  run-ne-done_of_Absent ops later rel src t ts tree end plain others at_rel gone h =
      elim (Outcome-cases (run own ops tree)) [
        | inl (next, e) ↦
            let kept : read_file rel next ≡ some src =
              rw e at (run-untouched own ops tree rel others) ∙ at_rel in
            let stopped =
              run-thrown own (patch rel (t ∷ ts)) later next next (anchor_missing rel t.label)
                (unfold run_op in edit-Absent rel src t ts next plain kept gone) in
            cc (run-append ops (patch rel (t ∷ ts) ∷ later) tree, e, stopped, h)
        | inr (f, next, e) ↦ cc (run-append ops (patch rel (t ∷ ts) ∷ later) tree, e, h)
      ]
