-- ===== src/Page/Builder.antt =====
-- web/privasys-shell.js, `el` and the views that it builds.
use attested_harness.Common.{
  Option, some, List, [], ◌∷◌, ◌++◌, if◌then◌else◌, Text, codes, same, strip_prefix,
}
use attested_harness.Page.{Node, Nodes, words, element, no_nodes, node}

-- A value that `el` gets for an attribute: a text, a function, or null.
pub data Value (A : Type 0) : Type 0 where
  is_text : Text → Value A
  is_function : A → Value A
  is_null : Value A

-- A child that `el` gets: a text, a node, or null.
pub data Child (A : Type 0) : Type 0 where
  of_text : Text → Child A
  of_node : Node A → Child A
  of_null : Child A

-- What stands of the node so far.
pub record Built (A : Type 0) : Type 0 where
  pub attributes : List (Text × Text)
  pub handlers : List (Text × A)

abbrev pub set_attribute : Text → Text → List (Text × Text) → List (Text × Text)
set_attribute k v [] = (k, v) ∷ []
set_attribute k v ((j, w) ∷ rest) =
    let others = set_attribute k v rest in if same j k then (k, v) ∷ rest else (j, w) ∷ others

module _ {A : Type 0} (source_of : A → Text) where
  -- `String(v)`; a function's text is its source.
  abbrev text_of : Value A → Text
  text_of (is_text s) = s
  text_of (is_function f) = source_of f
  text_of is_null = codes "null"

  abbrev set_on : Text → Text → Built A → Built A
  set_on k v b = record b { attributes = set_attribute k v b.attributes }

  -- The last two branches of the loop over the attributes.
  abbrev listen_or_set : Text → Option Text → Value A → Built A → Built A
  listen_or_set k (some event) (is_function f) b = record b {
    handlers = b.handlers ++ ((event, f) ∷ []);
  }
  listen_or_set k event is_null b = b
  listen_or_set k event v b = set_on k (text_of v) b

  unfoldable pub add_attribute : Text × Value A → Built A → Built A
  add_attribute (k, v) b =
      if same k (codes "class")
      then set_on (codes "class") (text_of v) b
      else if same k (codes "style")
      then set_on (codes "style") (text_of v) b
      else listen_or_set k (strip_prefix (codes "on") k) v b

  abbrev add_attributes : List (Text × Value A) → Built A → Built A
  add_attributes [] b = b
  add_attributes (a ∷ attrs) b = add_attributes attrs (add_attribute a b)

  unfoldable pub add_children : List (Child A) → Nodes A
  add_children [] = no_nodes
  add_children (of_null ∷ cs) = add_children cs
  add_children (of_text s ∷ cs) = node (words s) (add_children cs)
  add_children (of_node n ∷ cs) = node n (add_children cs)

  -- `el`.
  unfoldable pub el : Text → List (Text × Value A) → List (Child A) → Node A
  unfolding add_attribute add_children
  el tag attrs children =
      let b = add_attributes attrs (record { attributes = []; handlers = [] }) in
      element tag b.attributes b.handlers (add_children children)
