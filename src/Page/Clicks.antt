-- ===== src/Page/Clicks.antt =====
-- Clicks on the nodes of a page.
use attested_harness.Common.{
  ℕ, zero, suc, ◌≡◌, refl, ap, Bool, false, List, [], ◌∷◌, Text, true, ◌&&◌, &&_parts,
}
use attested_harness.Page.{
  Nodes, Node, words, element, no_nodes, node, bubble, handlers_of, fire, fire_in,
}

abbrev is_none : {A : Type 0} → List A → Bool
is_none [] = true
is_none (a ∷ called) = false

module _ {A : Type 0} (stops : A → Bool) (event : Text) where
  pub fire-words : (path : List ℕ) (s : Text) → fire stops event path (words s) ≡ ([], false)
  unfolding fire
  fire-words [] s = refl
  fire-words (i ∷ path) s = refl

  pub fire_in-nothing : (path : List ℕ) (i : ℕ) → fire_in stops event path i no_nodes ≡ ([], false)
  unfolding fire
  fire_in-nothing path zero = refl
  fire_in-nothing path (suc i) = refl

  -- No handler of the node, or of a node in it, is called by the event.
  unfoldable mutual
    pub is_inert : Node A → Bool
    is_inert (words s) = true
    is_inert (element tag attributes handlers children) =
        is_none (handlers_of event handlers) && are_inert children

    pub are_inert : Nodes A → Bool
    are_inert no_nodes = true
    are_inert (node n ns) = is_inert n && are_inert ns

  none_called : (called : List A) → is_none called ≡ true → called ≡ []
  none_called [] h = refl
  none_called (a ∷ called) h = absurd (cc)

  mutual
    unfolding fire is_inert

    pub fire-inert :
        (path : List ℕ) (n : Node A) → is_inert n ≡ true → fire stops event path n ≡ ([], false)
    fire-inert path (words s) h = fire-words path s
    fire-inert [] (element tag attributes handlers children) h =
        rw (none_called (handlers_of event handlers) (&&_parts _ (are_inert children) h).0) refl
    fire-inert (i ∷ path) (element tag attributes handlers children) h =
        let (e, inner) = &&_parts (is_none (handlers_of event handlers)) (are_inert children) h in
        rw (none_called (handlers_of event handlers) e, fire_in-inert path i children inner) refl

    pub fire_in-inert :
        (path : List ℕ) (i : ℕ) (ns : Nodes A)
        → are_inert ns ≡ true
        → fire_in stops event path i ns ≡ ([], false)
    fire_in-inert path i no_nodes h = fire_in-nothing path i
    fire_in-inert path zero (node n ns) h = fire-inert path n (&&_parts (is_inert n) _ h).0
    fire_in-inert path (suc i) (node n ns) h =
        fire_in-inert path i ns (&&_parts (is_inert n) (are_inert ns) h).1

  -- An event anywhere on an element whose children are inert calls the element's own handlers.
  pub fire-button :
      (path : List ℕ) (tag : Text) (attributes : List (Text × Text)) (handlers : List (Text × A))
      (children : Nodes A)
      → are_inert children ≡ true
      → fire stops event path (element tag attributes handlers children)
        ≡ bubble stops (handlers_of event handlers) ([], false)
  unfolding fire
  fire-button [] tag attributes handlers children h = refl
  fire-button (i ∷ path) tag attributes handlers children h =
      ap (bubble stops (handlers_of event handlers)) (fire_in-inert path i children h)

  -- An event on an element that holds only text calls the element's own handlers.
  pub fire-leaf :
      (path : List ℕ) (tag : Text) (attributes : List (Text × Text)) (handlers : List (Text × A))
      (s : Text)
      → fire stops event path (element tag attributes handlers (node (words s) no_nodes))
        ≡ bubble stops (handlers_of event handlers) ([], false)
  unfolding is_inert
  fire-leaf path tag attributes handlers s =
      fire-button path tag attributes handlers (node (words s) no_nodes) refl
