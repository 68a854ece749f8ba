-- ===== src/Sidebar/Report/Clicks.antt =====
-- web/overlay/brand/PrivasysAttestation.tsx: what each click on the row and its panel does.
use attested_harness.Common.{
  ℕ, zero, suc, ◌≡◌, refl, Bool, true, false, List, [], ◌∷◌, ◌++◌, if_split, All, All-append, Text,
  codes, same,
}
use attested_harness.Page.{
  Node, Nodes, words, element, no_nodes, node, fire, fire_in, bubble, handlers_of,
}
use attested_harness.Sidebar.Report.{
  Action, open_panel, close_panel, stay_inside, retry, of_view, lift_handlers, lift, lift_all,
  settle, stops,
}

-- Whether the panel is open behind a click. The row's button opens it; of the nodes below the
-- overlay, the third place of the path is in the panel: its head, whose second node is the closing
-- button, the line below it, and the body.
abbrev pub open_after : (is_open : Bool) → List ℕ → Bool
open_after is_open [] = is_open
open_after is_open (zero ∷ path) = true
open_after false (suc i ∷ path) = false
open_after true (suc zero ∷ []) = false
open_after true (suc zero ∷ zero ∷ zero ∷ suc zero ∷ path) = false
open_after true (suc zero ∷ zero ∷ path) = true
open_after true (suc zero ∷ suc i ∷ path) = false
open_after true (suc (suc i) ∷ path) = true

-- The handler neither opens nor closes the panel.
abbrev pub Stays : {C : Type 0} → Action C → Type 0
Stays open_panel = ⊥
Stays close_panel = ⊥
Stays stay_inside = Unit
Stays retry = Unit
Stays (of_view call) = Unit

pub settle-Stays :
    {C : Type 0} (actions : List (Action C)) (is_open : Bool)
    → All Stays actions
    → settle actions is_open ≡ is_open
settle-Stays [] is_open h = refl
settle-Stays (open_panel ∷ actions) is_open (h, hs) = absurd h
settle-Stays (close_panel ∷ actions) is_open (h, hs) = absurd h
settle-Stays (stay_inside ∷ actions) is_open (h, hs) = settle-Stays actions is_open hs
settle-Stays (retry ∷ actions) is_open (h, hs) = settle-Stays actions is_open hs
settle-Stays (of_view call ∷ actions) is_open (h, hs) = settle-Stays actions is_open hs

pub settle-append :
    {C : Type 0} (xs ys : List (Action C)) (is_open : Bool)
    → settle (xs ++ ys) is_open ≡ settle ys (settle xs is_open)
settle-append [] ys o = refl
settle-append (open_panel ∷ xs) ys o = settle-append xs ys true
settle-append (close_panel ∷ xs) ys o = settle-append xs ys false
settle-append (stay_inside ∷ xs) ys o = settle-append xs ys o
settle-append (retry ∷ xs) ys o = settle-append xs ys o
settle-append (of_view call ∷ xs) ys o = settle-append xs ys o

pub lift_handlers-Stays :
    {C : Type 0} (event : Text) (handlers : List (Text × C))
    → All Stays (handlers_of event (lift_handlers handlers))
lift_handlers-Stays event [] = tt
lift_handlers-Stays event ((e, c) ∷ handlers) =
    if_split (All Stays) (same e event) _ _ (λ _. (tt, lift_handlers-Stays event handlers))
      (λ _. lift_handlers-Stays event handlers)

module _ {C : Type 0} (view_stops : C → Bool) where
  abbrev pub click : List ℕ → Node (Action C) → List (Action C) × Bool
  click path n = fire (stops view_stops) (codes "click") path n

  pub bubble-Stays :
      (own : List (Action C)) (r : List (Action C) × Bool)
      → All Stays own
      → All Stays r.0
      → All Stays (bubble (stops view_stops) own r).0
  bubble-Stays own (inner, true) h k = k
  bubble-Stays own (inner, false) h k = All-append Stays inner own k h

  -- A click on the shared view calls only the view's own handlers.
  mutual
    unfolding fire lift

    pub lift-Stays :
        (path : List ℕ) (n : Node C)
        → All Stays (fire (stops view_stops) (codes "click") path (lift n)).0
    lift-Stays [] (words s) = tt
    lift-Stays (i ∷ path) (words s) = tt
    lift-Stays [] (element tag attributes handlers children) =
        bubble-Stays _ ([], false) (lift_handlers-Stays (codes "click") handlers) tt
    lift-Stays (i ∷ path) (element tag attributes handlers children) =
        bubble-Stays _ _ (lift_handlers-Stays (codes "click") handlers)
          (lift_all-Stays path i children)

    pub lift_all-Stays :
        (path : List ℕ) (i : ℕ) (ns : Nodes C)
        → All Stays (fire_in (stops view_stops) (codes "click") path i (lift_all ns)).0
    lift_all-Stays path zero no_nodes = tt
    lift_all-Stays path (suc i) no_nodes = tt
    lift_all-Stays path zero (node n ns) = lift-Stays path n
    lift_all-Stays path (suc i) (node n ns) = lift_all-Stays path i ns
