-- ===== src/Overlay.antt =====
-- web/apply-overlay.mjs: the two operations of the overlay, `put` and `edit`, over the file system,
-- and the run of a list of them. A thrown error ends the run and leaves the file system as it is.
pub mod Splice
pub mod Edit
pub mod Run
pub mod Stopped
pub mod FailClosed
pub mod Shipped
pub mod Ready
pub mod Queue
pub mod Tests
use attested_harness.Common.{
  ◌==◌, ℕ, Bool, true, false, Option, none, some, List, [], ◌∷◌, ◌++◌, Text, includes, cut,
  if◌then◌else◌, same,
}

-- A directory tree: each path with the file that stands there, the last one written first.
abbrev pub Tree : Type 0
Tree = List (Text × Text)

unfoldable pub read_file : Text → Tree → Option Text
read_file path [] = none
read_file path ((p, body) ∷ tree) = if same p path then some body else read_file path tree

unfoldable pub write_file : Text → Text → Tree → Tree
write_file path body tree = (path, body) ∷ tree

-- What the script throws: an anchor that is missing, with the file and the edit's label, or a file
-- that cannot be read.
pub data Failure : Type 0 where
  anchor_missing : (rel label : Text) → Failure
  no_file : (path : Text) → Failure

-- The outcome of a step, with the tree that it leaves behind.
pub data Outcome : Type 0 where
  done : Tree → Outcome
  thrown : Failure → Tree → Outcome

pub record Transform : Type 0 where
  pub label : Text
  pub find : Text
  pub replace : Text

-- The replacement patterns of `String.prototype.replace` with a text for the pattern: `$$` is a
-- dollar, `$&` what was found, and the two quotes what stands before and behind it. Any other
-- dollar stands for itself.
unfoldable pub expand : (found pre post : Text) → Text → Text
expand found pre post [] = []
expand found pre post (c ∷ []) = c ∷ []
expand found pre post (c ∷ d ∷ t) =
    let plain = c ∷ expand found pre post (d ∷ t) in
    let rest = expand found pre post t in
    if c == b'$'
    then if d == b'$'
      then b'$' ∷ rest
      else if d == b'&'
      then found ++ rest
      else if d == b'`'
      then pre ++ rest
      else if d == b'\''
      then post ++ rest
      else plain
    else plain

-- `src.replace(find, replace)`: the first occurrence only.
unfoldable pub replace_first : Text → Text → Text → Text
unfolding expand
replace_first find by src = elim (cut find src) [
  | none ↦ src
  | some (pre, post) ↦ pre ++ (expand find pre post by ++ post)
]

-- The loop of `edit` over its transforms: the text that is written at the end, or the label of the
-- first anchor that is missing.
pub data Edited : Type 0 where
  rewritten : Text → Edited
  missing : (label : Text) → Edited

unfoldable pub transform_all : List Transform → Text → Edited
unfolding replace_first
transform_all [] src = rewritten src
transform_all (t ∷ ts) src =
    let next = transform_all ts (replace_first t.find t.replace src) in
    if includes src t.find then next else missing t.label

abbrev finish_edit : Text → Tree → Edited → Outcome
finish_edit rel tree (rewritten src) = done (write_file rel src tree)
finish_edit rel tree (missing label) = thrown (anchor_missing rel label) tree

abbrev edit_source : Text → List Transform → Tree → Option Text → Outcome
edit_source rel ts tree none = thrown (no_file rel) tree
edit_source rel ts tree (some src) = finish_edit rel tree (transform_all ts src)

-- `edit(rel, transforms)`: read, replace each anchor in turn, write once at the end. Paths are
-- relative to the root of the tree.
unfoldable pub edit : Text → List Transform → Tree → Outcome
unfolding read_file write_file transform_all
edit rel ts tree = edit_source rel ts tree (read_file rel tree)

abbrev put_source : Text → Text → Tree → Option Text → Outcome
put_source rel «from» tree none = thrown (no_file «from») tree
put_source rel «from» tree (some body) = done (write_file rel body tree)

-- `put(rel, from)`: copy a file of the overlay's own directory into the tree.
unfoldable pub put : (own : Tree) → Text → Text → Tree → Outcome
unfolding read_file write_file
put own rel source tree = put_source rel source tree (read_file source own)

-- One statement of the script.
pub data Op : Type 0 where
  copy : (rel source : Text) → Op
  patch : (rel : Text) → List Transform → Op

unfoldable pub run_op : (own : Tree) → Op → Tree → Outcome
unfolding put edit
run_op own (copy rel source) tree = put own rel source tree
run_op own (patch rel ts) tree = edit rel ts tree

-- `;` of the script: nothing runs behind a throw.
abbrev pub then_run : Outcome → (Tree → Outcome) → Outcome
then_run (done tree) k = k tree
then_run (thrown e tree) k = thrown e tree

-- The statements of the script in order.
unfoldable pub run : (own : Tree) → List Op → Tree → Outcome
unfolding run_op
run own [] tree = done tree
run own (op ∷ ops) tree = then_run (run_op own op tree) (run own ops)
