-- ===== src/Overlay/Queue/Laws.antt =====
-- The overlay's own statements: none has a replacement pattern, and no copied file is written twice.
use attested_harness.Common.{
  ◌≡◌, ◌≢◌, refl, Bool, true, not, List, [], ◌∷◌, ◌++◌, some, Text, Free, All, all, ◌==◌, arith,
  &&_parts,
}
use attested_harness.Overlay.{Tree, read_file, Transform, Op, copy, patch, run, done}
use attested_harness.Overlay.Splice.{IsPlain, Applies, Absent}
use attested_harness.Overlay.Edit.{target}
use attested_harness.Overlay.FailClosed.{run-ne-done_of_Absent}
use attested_harness.Overlay.Shipped.{keeps_copies, IsShipped, run-IsShipped, run-patched}
use attested_harness.Overlay.Ready.{PlainOp, Ready, run-Ready}
use attested_harness.Overlay.Queue.{overlay_queue}

abbrev has_no_dollar : Text → Bool
has_no_dollar by = all (λ c. not (c == b'$')) by

abbrev op_is_plain : Op → Bool
op_is_plain (copy rel source) = true
op_is_plain (patch rel ts) = all (λ t. has_no_dollar t.replace) ts

queue-plain : all op_is_plain overlay_queue ≡ true
unfolding overlay_queue
queue-plain = refl

queue-keeps : keeps_copies overlay_queue ≡ true
unfolding overlay_queue
queue-keeps = refl

Free-of_no_dollar : (by : Text) → has_no_dollar by ≡ true → Free b'$' by
Free-of_no_dollar [] h = tt
Free-of_no_dollar (c ∷ by) h =
    let (here, rest) = &&_parts (not (c == b'$')) (has_no_dollar by) h in
    (ground arith, Free-of_no_dollar by rest)

IsPlain-of_all : (ts : List Transform) → all (λ t. has_no_dollar t.replace) ts ≡ true → IsPlain ts
IsPlain-of_all [] h = tt
IsPlain-of_all (t ∷ ts) h =
    let (here, rest) = &&_parts _ _ h in (Free-of_no_dollar t.replace here, IsPlain-of_all ts rest)

IsPlain-at :
    (ops later : List Op) (rel : Text) (ts : List Transform)
    → all op_is_plain (ops ++ (patch rel ts ∷ later)) ≡ true
    → IsPlain ts
IsPlain-at [] later rel ts h = IsPlain-of_all ts (&&_parts _ _ h).0
IsPlain-at (op ∷ ops) later rel ts h = IsPlain-at ops later rel ts (&&_parts (op_is_plain op) _ h).1

queue-IsPlain_at :
    (ops later : List Op) (rel : Text) (ts : List Transform)
    → overlay_queue ≡ ops ++ (patch rel ts ∷ later)
    → IsPlain ts
queue-IsPlain_at ops later rel ts e = IsPlain-at ops later rel ts (rw e at queue-plain)

-- When the overlay's run ends well, every file that it copies stands in the tree as the overlay's
-- own directory has it.
pub queue-IsShipped :
    (own tree end : Tree)
    → run own overlay_queue tree ≡ done end
    → All (IsShipped own end) overlay_queue
queue-IsShipped own tree end h = run-IsShipped own overlay_queue tree end queue-keeps h

-- When the overlay's run ends well, a file that only one of its edits writes holds what that
-- edit's replacements make of the upstream text, each anchor found in its turn.
pub queue-patched :
    (own tree end : Tree) (ops later : List Op) (rel : Text) (ts : List Transform)
    → overlay_queue ≡ ops ++ (patch rel ts ∷ later)
    → All (λ op. rel ≢ target op) ops
    → All (λ op. rel ≢ target op) later
    → run own overlay_queue tree ≡ done end
    → (src : Text) × (out : Text) × (read_file rel tree ≡ some src)
      × Applies ts src out
      × (read_file rel end ≡ some out)
queue-patched own tree end ops later rel ts e before after h =
    run-patched own ops later rel ts tree end (queue-IsPlain_at ops later rel ts e) before after
      (rw e at h)

-- No overlay run ends well over a tree in which upstream moved the first anchor of an edit, where
-- no earlier statement writes that edit's file.
pub queue-ne-done_of_Absent :
    (own tree end : Tree) (ops later : List Op) (rel src : Text) (t : Transform)
    (ts : List Transform)
    → overlay_queue ≡ ops ++ (patch rel (t ∷ ts) ∷ later)
    → All (λ op. rel ≢ target op) ops
    → read_file rel tree ≡ some src
    → Absent t.find src
    → run own overlay_queue tree ≢ done end
queue-ne-done_of_Absent own tree end ops later rel src t ts e others at_rel gone h =
    run-ne-done_of_Absent own ops later rel src t ts tree end
      (queue-IsPlain_at ops later rel (t ∷ ts) e) others at_rel gone (rw e at h)

PlainOp-of_all : (ops : List Op) → all op_is_plain ops ≡ true → All PlainOp ops
PlainOp-of_all [] h = tt
PlainOp-of_all (copy rel source ∷ ops) h = (tt, PlainOp-of_all ops h)
PlainOp-of_all (patch rel ts ∷ ops) h =
    let (here, later) = &&_parts _ _ h in (IsPlain-of_all ts here, PlainOp-of_all ops later)

pub queue-PlainOp : All PlainOp overlay_queue
queue-PlainOp = PlainOp-of_all overlay_queue queue-plain

-- The overlay's run ends well over every upstream tree in which each file that it edits is there
-- and all its edits of that file find their anchors in turn, if the overlay's own directory has
-- every file that it copies.
pub queue-ends_well :
    (own tree : Tree)
    → All (Ready own tree overlay_queue) overlay_queue
    → (end : Tree) × (run own overlay_queue tree ≡ done end)
queue-ends_well own tree r = run-Ready own overlay_queue tree queue-keeps queue-PlainOp r
