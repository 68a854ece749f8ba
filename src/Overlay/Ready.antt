-- ===== src/Overlay/Ready.antt =====
-- web/apply-overlay.mjs: when a run of statements gets to its end.
use attested_harness.Common.{
  Free, all, All-append, inr, inl, ◌≡◌, ◌≢◌, refl, sym, ap, ◌∙◌, Bool, true, false, Option, none,
  some, List, [], ◌∷◌, Text, All, ◌++◌, ◌⊎◌, Bool-cases, same_iff, same_refl, subst, if◌then◌else◌,
  same, &&_parts,
}
use attested_harness.Overlay.{
  Tree, read_file, write_file, done, Transform, transform_all, Edited, rewritten, missing,
  finish_edit, edit_source, edit, put_source, put, Op, copy, patch, run_op, run,
}
use attested_harness.Overlay.Splice.{Applies, no_more, splice, IsPlain, transform_all_iff}
use attested_harness.Overlay.Edit.{target, tree_of, run_op-AgreeBut, read_file-written}
use attested_harness.Overlay.Run.{run-done}
use attested_harness.Overlay.Shipped.{others_of_all, keeps_copies}

-- The transforms of all edits of one file, in their order.
abbrev pub transforms_at : Text → List Op → List Transform
transforms_at rel [] = []
transforms_at rel (copy to source ∷ ops) = transforms_at rel ops
transforms_at rel (patch to ts ∷ ops) =
    let rest = transforms_at rel ops in if same to rel then ts ++ rest else rest

abbrev pub PlainOp : Op → Type 0
PlainOp (copy rel source) = Unit
PlainOp (patch rel ts) = IsPlain ts

Applies-append :
    (ts us : List Transform) (src out : Text)
    → Applies (ts ++ us) src out
    → (mid : Text) × Applies ts src mid × Applies us mid out
Applies-append [] us src out h = (src, no_more, h)
Applies-append (t ∷ ts) us src out (splice pre post e first rest) =
    let (mid, before, behind) = Applies-append ts us (pre ++ (t.replace ++ post)) out rest in
    (mid, splice pre post e first before, behind)

Applies-unique :
    (ts : List Transform) (src a b : Text)
    → IsPlain ts
    → Applies ts src a
    → Applies ts src b
    → a ≡ b
Applies-unique ts src a b plain h k =
    let e : transform_all ts src ≡ rewritten a = ((transform_all_iff ts src plain).0 a).1 h in
    let f : transform_all ts src ≡ rewritten b = ((transform_all_iff ts src plain).0 b).1 k in
    cc (e, f)

module _ (own : Tree) where
  -- What the statement needs stands in the trees: the file that it copies, or the file that it
  -- edits, in which all edits of that file among the statements find their anchors in turn.
  abbrev pub Ready : Tree → List Op → Op → Type 0
  Ready tree ops (copy rel source) = (body : Text) × (read_file source own ≡ some body)
  Ready tree ops (patch rel ts) =
      (src : Text) × (out : Text) × (read_file rel tree ≡ some src)
      × Applies (transforms_at rel ops) src out

  Ready_elsewhere :
      (op : Op) (tree next : Tree) (ops : List Op) (rel : Text)
      → run_op own op tree ≡ done next
      → target op ≢ rel
      → (src : Text) → read_file rel tree ≡ some src
      → read_file rel next ≡ some src
  Ready_elsewhere op tree next ops rel e other src at_rel =
      ap (λ t. read_file rel (tree_of t)) (sym e)
      ∙ run_op-AgreeBut own op tree rel (λ h. other (sym h))
      ∙ at_rel

  copy_step :
      (rel source : Text) (tree next : Tree) (all_ops ops : List Op)
      → run_op own (copy rel source) tree ≡ done next
      → All (λ o. rel ≢ target o) ops
      → All (Ready tree (copy rel source ∷ all_ops)) ops
      → All (Ready next all_ops) ops
  copy_step rel source tree next all_ops [] e others r = tt
  copy_step rel source tree next all_ops (copy to from' ∷ ops) e (other, others) (r, rs) =
      (r, copy_step rel source tree next all_ops ops e others rs)
  copy_step rel source tree next all_ops (patch to ts ∷ ops) e (other, others)
        ((src, out, at_rel, applied), rs) =
      (
        (
          src,
          out,
          Ready_elsewhere (copy rel source) tree next all_ops to e other src at_rel,
          applied,
        ),
        copy_step rel source tree next all_ops ops e others rs,
      )

  patch_step :
      (rel : Text) (ts : List Transform) (src mid : Text) (tree next : Tree) (all_ops ops : List Op)
      → run_op own (patch rel ts) tree ≡ done next
      → read_file rel tree ≡ some src
      → read_file rel next ≡ some mid
      → ((out : Text)
          → Applies (ts ++ transforms_at rel all_ops) src out
          → Applies (transforms_at rel all_ops) mid out)
      → All (Ready tree (patch rel ts ∷ all_ops)) ops
      → All (Ready next all_ops) ops
  patch_step rel ts src mid tree next all_ops [] e at_rel written cut' r = tt
  patch_step rel ts src mid tree next all_ops (copy to from' ∷ ops) e at_rel written cut' (r, rs) =
      (r, patch_step rel ts src mid tree next all_ops ops e at_rel written cut' rs)
  patch_step rel ts src mid tree next all_ops (patch to us ∷ ops) e at_rel written cut' (r, rs) = (
    patched_again (Bool-cases (same rel to)) r,
    patch_step rel ts src mid tree next all_ops ops e at_rel written cut' rs,
  )
    where
      patched_again :
          (same rel to ≡ true) ⊎ (same rel to ≡ false)
          → Ready tree (patch rel ts ∷ all_ops) (patch to us)
          → Ready next all_ops (patch to us)
      patched_again (inl hit) (src', out, at_to, applied) =
          let e' : rel ≡ to = (same_iff rel to).0 hit in
          let s' : src' ≡ src = cc (at_rel, at_to, e') in
          let whole : Applies (ts ++ transforms_at to all_ops) src' out = rw hit at applied in
          let whole' =
            subst (λ t. Applies (ts ++ transforms_at t all_ops) src' out) (sym e') whole in
          (
            mid,
            out,
            subst (λ t. read_file t next ≡ some mid) e' written,
            subst (λ t. Applies (transforms_at t all_ops) mid out) e'
                (cut' out (subst (λ t. Applies (ts ++ transforms_at rel all_ops) t out) s' whole')),
          )
      patched_again (inr away) (src', out, at_to, applied) = (
        src',
        out,
        Ready_elsewhere (patch rel ts) tree next all_ops to e
            (λ h. cc ((same_iff rel to).1 h, away)) src' at_to,
        rw away at applied,
      )

  -- A run ends well where each statement finds what it needs at the start, and no copied file is
  -- written again.
  pub run-Ready :
      (ops : List Op) (tree : Tree)
      → keeps_copies ops ≡ true
      → All PlainOp ops
      → All (Ready tree ops) ops
      → (end : Tree) × (run own ops tree ≡ done end)
  unfolding run_op put edit
  run-Ready [] tree d p r = (tree, unfold run in refl)
  run-Ready (copy rel source ∷ ops) tree d (p, ps) ((body, e), rs) =
      let (others, d') = &&_parts _ _ d in
      let next = write_file rel body tree in
      let ran : run_op own (copy rel source) tree ≡ done next = ap (put_source rel source tree) e in
      let rs' = copy_step rel source tree next ops ops ran (others_of_all rel ops others) rs in
      let (end, rest) = run-Ready ops next d' ps rs' in
      (end, run-done own (copy rel source) ops tree next ran ∙ rest)
  run-Ready (patch rel ts ∷ ops) tree d (p, ps) ((src, out, at_rel, applied), rs) =
      let whole : Applies (ts ++ transforms_at rel ops) src out = rw (same_refl rel) at applied in
      let (mid, here, _) = Applies-append ts (transforms_at rel ops) src out whole in
      let next = write_file rel mid tree in
      let ran : run_op own (patch rel ts) tree ≡ done next =
        ap (edit_source rel ts tree) at_rel
        ∙ ap (finish_edit rel tree) (((transform_all_iff ts src p).0 mid).1 here) in
      let rs' =
        patch_step rel ts src mid tree next ops ops ran at_rel (read_file-written rel mid tree)
          (λ out' h.
            let (mid', here', behind) = Applies-append ts (transforms_at rel ops) src out' h in
            subst (λ t. Applies (transforms_at rel ops) t out')
              (Applies-unique ts src mid' mid p here' here) behind)
          rs in
      let (end, rest) = run-Ready ops next d ps rs' in
      (end, run-done own (patch rel ts) ops tree next ran ∙ rest)

  abbrev is_rewritten : Edited → Bool
  is_rewritten (rewritten out) = true
  is_rewritten (missing label) = false

  abbrev is_there : Option Text → Bool
  is_there none = false
  is_there (some body) = true

  abbrev finds_anchors : List Transform → Option Text → Bool
  finds_anchors ts none = false
  finds_anchors ts (some src) = is_rewritten (transform_all ts src)

  -- A test for it, over transforms without a dollar.
  abbrev pub is_ready : Tree → List Op → Op → Bool
  is_ready tree all_ops (copy rel source) = is_there (read_file source own)
  is_ready tree all_ops (patch rel ts) =
      finds_anchors (transforms_at rel all_ops) (read_file rel tree)

  some-of : (o : Option Text) → is_there o ≡ true → (body : Text) × (o ≡ some body)
  some-of none h = absurd (cc)
  some-of (some body) h = (body, refl)

  rewritten-of : (e : Edited) → is_rewritten e ≡ true → (out : Text) × (e ≡ rewritten out)
  rewritten-of (rewritten out) h = (out, refl)
  rewritten-of (missing label) h = absurd (cc)

  Applies-of :
      (ts : List Transform) (o : Option Text)
      → IsPlain ts
      → finds_anchors ts o ≡ true
      → (src : Text) × (out : Text) × (o ≡ some src) × Applies ts src out
  Applies-of ts none p h = absurd (cc)
  Applies-of ts (some src) p h =
      let (out, e) = rewritten-of (transform_all ts src) h in
      (src, out, refl, ((transform_all_iff ts src p).0 out).0 e)

  IsPlain-at : (rel : Text) (ops : List Op) → All PlainOp ops → IsPlain (transforms_at rel ops)
  IsPlain-at rel [] p = tt
  IsPlain-at rel (copy to source ∷ ops) (p, ps) = IsPlain-at rel ops ps
  IsPlain-at rel (patch to ts ∷ ops) (p, ps) = elim (Bool-cases (same to rel)) [
    | inl hit ↦
        rw hit (
          All-append (λ t. Free b'$' t.replace) ts (transforms_at rel ops) p
            (IsPlain-at rel ops ps))
    | inr away ↦ rw away (IsPlain-at rel ops ps)
  ]

  pub Ready-of_is_ready :
      (tree : Tree) (all_ops ops : List Op)
      → All PlainOp all_ops
      → all (is_ready tree all_ops) ops ≡ true
      → All (Ready tree all_ops) ops
  Ready-of_is_ready tree all_ops [] p h = tt
  Ready-of_is_ready tree all_ops (copy rel source ∷ ops) p h =
      let (here, later) = &&_parts _ _ h in
      (some-of (read_file source own) here, Ready-of_is_ready tree all_ops ops p later)
  Ready-of_is_ready tree all_ops (patch rel ts ∷ ops) p h =
      let (here, later) = &&_parts _ _ h in
      (
        Applies-of (transforms_at rel all_ops) (read_file rel tree) (IsPlain-at rel all_ops p) here,
        Ready-of_is_ready tree all_ops ops p later,
      )
