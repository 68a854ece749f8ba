-- ===== src/Page.antt =====
-- The nodes of a page that web/privasys-shell.js and the components of web/overlay/brand build, and
-- what a click on one of them calls. `A` is what the handlers do.
pub mod Clicks
pub mod Builder
use attested_harness.Common.{
  ℕ, zero, suc, Bool, true, false, List, [], ◌∷◌, ◌++◌, if◌then◌else◌, any, Text, same,
}

-- An element with its attributes, its handlers by the name of the event, and its children; or text.
mutual
  pub data Node (A : Type 0) : Type 0 where
    words : Text → Node A
    element :
        (tag : Text) (attributes : List (Text × Text)) (handlers : List (Text × A))
        (children : Nodes A)
        → Node A

  pub data Nodes (A : Type 0) : Type 0 where
    no_nodes : Nodes A
    node : Node A → Nodes A → Nodes A

-- The handlers that are called, the innermost first, and whether one of them stopped the event.
abbrev pub Called : Type 0 → Type 0
Called A = List A × Bool

abbrev pub handlers_of : {A : Type 0} → Text → List (Text × A) → List A
handlers_of event [] = []
handlers_of event ((e, a) ∷ hs) =
    let rest = handlers_of event hs in if same e event then a ∷ rest else rest

module _ {A : Type 0} (stops : A → Bool) where
  -- The event comes to an element from inside: it stays where it was stopped.
  abbrev pub bubble : List A → Called A → Called A
  bubble own (inner, true) = (inner, true)
  bubble own (inner, false) = (inner ++ own, any stops own)

  -- An event at the node to which the path leads, one number for each level. A path that leads out
  -- of the tree ends at the last node on it.
  unfoldable mutual
    pub fire : Text → List ℕ → Node A → Called A
    fire event path (words s) = ([], false)
    fire event [] (element tag attributes handlers children) =
        bubble (handlers_of event handlers) ([], false)
    fire event (i ∷ path) (element tag attributes handlers children) =
        bubble (handlers_of event handlers) (fire_in event path i children)

    pub fire_in : Text → List ℕ → ℕ → Nodes A → Called A
    fire_in event path i no_nodes = ([], false)
    fire_in event path zero (node n ns) = fire event path n
    fire_in event path (suc i) (node n ns) = fire_in event path i ns
