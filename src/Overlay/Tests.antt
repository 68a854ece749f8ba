-- ===== src/Overlay/Tests.antt =====
-- The overlay at concrete trees.
use attested_harness.Common.{
  all, arith, codes, ◌≢◌, some, ◌↔◌, All, drop, cut, strip_prefix, ◌≡◌, refl, Bool, true, false,
  List, [], ◌∷◌, ◌++◌, Text, same, if◌then◌else◌,
}
use attested_harness.Overlay.{
  Tree, Transform, Op, copy, patch, Outcome, done, thrown, anchor_missing, read_file, run, edit,
  transform_all, rewritten, missing, replace_first,
}
use attested_harness.Overlay.Splice.{Applies, Stuck, Absent-of_includes, transform_all_iff}
use attested_harness.Overlay.Edit.{EditSpec, edit-EditSpec, tree_of}
use attested_harness.Overlay.Run.{run-untouched}
use attested_harness.Overlay.Stopped.{Stopped, run-Stopped}
use attested_harness.Overlay.Shipped.{IsShipped, others_of_all}
use attested_harness.Overlay.Queue.{
  overlay_queue, asset_copies, accept_binary_frames, swap_web_tool,
}
use attested_harness.Overlay.Ready.{is_ready, Ready-of_is_ready}
use attested_harness.Overlay.Queue.Laws.{
  queue-ends_well, queue-PlainOp, queue-IsShipped, queue-patched, queue-ne-done_of_Absent,
}

-- An upstream tree: each patched file holds the anchors of its edits, one behind the other.
abbrev anchors : List Transform → Text
anchors [] = []
anchors (t ∷ ts) = t.find ++ (b'\n' ∷ anchors ts)

abbrev stock_text : Text → List Op → Text
stock_text rel [] = []
stock_text rel (copy r source ∷ ops) = stock_text rel ops
stock_text rel (patch r ts ∷ ops) =
    if same r rel then anchors ts ++ stock_text rel ops else stock_text rel ops

abbrev stock_of : List Op → List Op → Tree
stock_of queue [] = []
stock_of queue (copy rel source ∷ ops) = stock_of queue ops
stock_of queue (patch rel ts ∷ ops) = (rel, stock_text rel queue) ∷ stock_of queue ops

abbrev own_of : List Op → Tree
own_of [] = []
own_of (copy rel source ∷ ops) = (source, source) ∷ own_of ops
own_of (patch rel ts ∷ ops) = own_of ops

ends_well : Outcome → Bool
ends_well (done t) = true
ends_well (thrown e t) = false

stock_ends_well :
    ends_well (run (own_of overlay_queue) overlay_queue (stock_of overlay_queue overlay_queue))
    ≡ true
unfolding ends_well overlay_queue run cut strip_prefix
stock_ends_well = refl

abbrev transforms_of : Op → List Transform
transforms_of (copy rel source) = []
transforms_of (patch rel ts) = ts

abbrev first_of_edit : Op → Transform
first_of_edit (copy rel source) = record { label = []; find = []; replace = [] }
first_of_edit (patch rel []) = record { label = []; find = []; replace = [] }
first_of_edit (patch rel (t ∷ ts)) = t

abbrev upstream : Tree
upstream = stock_of overlay_queue overlay_queue

abbrev own_files : Tree
own_files = own_of overlay_queue

done_of_ends_well : (o : Outcome) → ends_well o ≡ true → o ≡ done (tree_of o)
unfolding ends_well
done_of_ends_well (done t) h = refl
done_of_ends_well (thrown e t) h = cc

abbrev built : Tree
built = tree_of (run own_files overlay_queue upstream)

upstream_builds : run own_files overlay_queue upstream ≡ done built
upstream_builds = done_of_ends_well (run own_files overlay_queue upstream) stock_ends_well

upstream_ready : all (is_ready own_files upstream overlay_queue) overlay_queue ≡ true
unfolding ends_well overlay_queue run cut strip_prefix
upstream_ready = refl

queue-ends_well_example : (end : Tree) × (run own_files overlay_queue upstream ≡ done end)
queue-ends_well_example =
    queue-ends_well own_files upstream (
      Ready-of_is_ready own_files upstream overlay_queue overlay_queue queue-PlainOp upstream_ready)

queue-IsShipped_example : All (IsShipped own_files built) overlay_queue
queue-IsShipped_example = queue-IsShipped own_files upstream built upstream_builds

abbrev gateway : Text
gateway = codes "packages/api/gateway/src/stream-server.ts"

-- The statements behind the first edit.
abbrev later_ops : List Op
unfolding overlay_queue
later_ops = drop 13 overlay_queue

abbrev gateway_edit : List Transform
gateway_edit = transforms_of accept_binary_frames

queue_parts : overlay_queue ≡ asset_copies ++ (patch gateway gateway_edit ∷ later_ops)
unfolding overlay_queue
queue_parts = refl

queue-patched_example :
    (src : Text) × (out : Text) × (read_file gateway upstream ≡ some src)
    × Applies gateway_edit src out
    × (read_file gateway built ≡ some out)
unfolding overlay_queue
queue-patched_example =
    queue-patched own_files upstream built asset_copies later_ops gateway gateway_edit queue_parts
      (others_of_all gateway asset_copies refl) (others_of_all gateway later_ops refl)
      upstream_builds

-- A tree in which the gateway's handler was rewritten.
abbrev moved : Tree
moved = (gateway, codes "socket.on('message', this.onFrame)") ∷ upstream

queue-ne-done_of_Absent_example : run own_files overlay_queue moved ≢ done built
unfolding read_file cut strip_prefix overlay_queue
queue-ne-done_of_Absent_example =
    queue-ne-done_of_Absent own_files moved built asset_copies later_ops gateway
      (codes "socket.on('message', this.onFrame)") (first_of_edit accept_binary_frames) []
      queue_parts (others_of_all gateway asset_copies refl) refl
      (Absent-of_includes ((first_of_edit accept_binary_frames).find) _ refl)

abbrev swap_ab : List Transform
swap_ab =
    record { label = codes "first"; find = codes "a"; replace = codes "b" }
    ∷ record { label = codes "second"; find = codes "bb"; replace = codes "c" }
    ∷ []

transform_all_iff_example :
    ((out : Text)
      → (transform_all swap_ab (codes "xab") ≡ rewritten out) ↔ Applies swap_ab (codes "xab") out)
    × ((label : Text)
        → (transform_all swap_ab (codes "xab") ≡ missing label) ↔ Stuck swap_ab (codes "xab") label)
transform_all_iff_example = transform_all_iff swap_ab (codes "xab") (ground arith)

swap_test : transform_all swap_ab (codes "xab") ≡ rewritten (codes "xc")
unfolding transform_all cut strip_prefix
swap_test = refl

-- A replacement pattern is expanded, as JavaScript does.
pattern_test : replace_first (codes "b") (codes "[$&$$$'$`$1]") (codes "abc") ≡ codes "a[b$ca$1]c"
unfolding replace_first cut strip_prefix
pattern_test = refl

edit-EditSpec_example : EditSpec gateway swap_ab moved (edit gateway swap_ab moved)
edit-EditSpec_example = edit-EditSpec gateway swap_ab moved (ground arith)

run-untouched_example :
    read_file (codes "README.md") (tree_of (run own_files swap_web_tool moved))
    ≡ read_file (codes "README.md") moved
run-untouched_example =
    run-untouched own_files swap_web_tool moved (codes "README.md")
      (others_of_all _ swap_web_tool refl)

moved_throws :
    run own_files overlay_queue moved
    ≡ thrown
        (anchor_missing gateway (codes "mux server binary-frame acceptance"))
        (tree_of (run own_files overlay_queue moved))
unfolding overlay_queue run cut strip_prefix
moved_throws = refl

run-Stopped_example :
    Stopped own_files overlay_queue moved
      (anchor_missing gateway (codes "mux server binary-frame acceptance"))
      (tree_of (run own_files overlay_queue moved))
run-Stopped_example = run-Stopped own_files overlay_queue moved _ _ queue-PlainOp moved_throws
