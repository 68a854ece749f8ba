-- ===== src/Overlay/Edit.antt =====
-- web/apply-overlay.mjs: what `edit`, `put` and the whole run leave in the tree.
use attested_harness.Common.{
  ◌≡◌, refl, sym, ◌≢◌, inl, inr, Option, none, some, List, Text, same, same_iff, same_refl,
  if◌then◌else◌, Bool-cases, Option-cases,
}
use attested_harness.Overlay.{
  Tree, read_file, write_file, anchor_missing, no_file, Outcome, done, thrown, Transform,
  transform_all, Edited, rewritten, missing, finish_edit, edit_source, edit, put_source, put, Op,
  copy, patch, run_op,
}
use attested_harness.Overlay.Splice.{Applies, Stuck, IsPlain, transform_all_iff}

pub read_file-write_file :
    (path p body : Text) (tree : Tree)
    → read_file path (write_file p body tree)
      ≡ (if same p path then some body else read_file path tree)
unfolding read_file write_file
read_file-write_file path p body tree = refl

-- Two trees hold the same files, but perhaps at one path.
abbrev pub AgreeBut : Text → Tree → Tree → Type 0
AgreeBut rel tree tree' = (path : Text) → path ≢ rel → read_file path tree' ≡ read_file path tree

write_file-AgreeBut : (rel body : Text) (tree : Tree) → AgreeBut rel tree (write_file rel body tree)
write_file-AgreeBut rel body tree path other = elim (Bool-cases (same rel path)) [
  | inl e ↦ absurd (other (sym ((same_iff rel path).0 e)))
  | inr e ↦ rw (read_file-write_file path rel body tree, e)
]

pub read_file-written :
    (rel body : Text) (tree : Tree) → read_file rel (write_file rel body tree) ≡ some body
read_file-written rel body tree = rw (read_file-write_file rel rel body tree, same_refl rel)

-- The outcomes that the specification of `edit` allows.
pub data EditSpec (rel : Text) (ts : List Transform) (tree : Tree) : Outcome → Type 0 where
  unreadable : read_file rel tree ≡ none → EditSpec rel ts tree (thrown (no_file rel) tree)
  refused :
      (src label : Text)
      → read_file rel tree ≡ some src
      → Stuck ts src label
      → EditSpec rel ts tree (thrown (anchor_missing rel label) tree)
  patched :
      (src out : Text) (tree' : Tree)
      → read_file rel tree ≡ some src
      → Applies ts src out
      → read_file rel tree' ≡ some out
      → AgreeBut rel tree tree'
      → EditSpec rel ts tree (done tree')

finish_edit-Spec :
    (rel src : Text) (ts : List Transform) (tree : Tree) (e : Edited)
    → IsPlain ts
    → read_file rel tree ≡ some src
    → transform_all ts src ≡ e
    → EditSpec rel ts tree (finish_edit rel tree e)
finish_edit-Spec rel src ts tree (rewritten out) plain at_rel h =
    patched src out (write_file rel out tree) at_rel (((transform_all_iff ts src plain).0 out).0 h)
      (read_file-written rel out tree) (write_file-AgreeBut rel out tree)
finish_edit-Spec rel src ts tree (missing label) plain at_rel h =
    refused src label at_rel (((transform_all_iff ts src plain).1 label).0 h)

-- `edit` has one of three outcomes, for replacements without a dollar: the file cannot be read, or
-- the anchor of some transform is absent, and it throws with the tree as it was; or every transform
-- applied in turn, the file holds the result, and every other file is as before.
pub edit-EditSpec :
    (rel : Text) (ts : List Transform) (tree : Tree)
    → IsPlain ts
    → EditSpec rel ts tree (edit rel ts tree)
unfolding edit
edit-EditSpec rel ts tree plain = elim (Option-cases (read_file rel tree)) [
  | inl gone ↦ rw gone (unreadable gone)
  | inr (src, at_rel) ↦
      rw at_rel (finish_edit-Spec rel src ts tree (transform_all ts src) plain at_rel refl)
]

-- The path that a statement writes.
abbrev pub target : Op → Text
target (copy rel source) = rel
target (patch rel ts) = rel

abbrev pub tree_of : Outcome → Tree
tree_of (done tree) = tree
tree_of (thrown e tree) = tree

AgreeBut-refl : (rel : Text) (tree : Tree) → AgreeBut rel tree tree
AgreeBut-refl rel tree path other = refl

finish_edit-AgreeBut :
    (rel : Text) (tree : Tree) (e : Edited) → AgreeBut rel tree (tree_of (finish_edit rel tree e))
finish_edit-AgreeBut rel tree (rewritten out) = write_file-AgreeBut rel out tree
finish_edit-AgreeBut rel tree (missing label) = AgreeBut-refl rel tree

edit_source-AgreeBut :
    (rel : Text) (ts : List Transform) (tree : Tree) (o : Option Text)
    → AgreeBut rel tree (tree_of (edit_source rel ts tree o))
edit_source-AgreeBut rel ts tree none = AgreeBut-refl rel tree
edit_source-AgreeBut rel ts tree (some src) = finish_edit-AgreeBut rel tree (transform_all ts src)

put_source-AgreeBut :
    (rel source : Text) (tree : Tree) (o : Option Text)
    → AgreeBut rel tree (tree_of (put_source rel source tree o))
put_source-AgreeBut rel source tree none = AgreeBut-refl rel tree
put_source-AgreeBut rel source tree (some body) = write_file-AgreeBut rel body tree

-- One statement changes no file but the one that it names, whether it throws or not.
pub run_op-AgreeBut :
    (own : Tree) (op : Op) (tree : Tree) → AgreeBut (target op) tree (tree_of (run_op own op tree))
unfolding run_op edit put
run_op-AgreeBut own (copy rel source) tree =
    put_source-AgreeBut rel source tree (read_file source own)
run_op-AgreeBut own (patch rel ts) tree = edit_source-AgreeBut rel ts tree (read_file rel tree)
