-- ===== src/Sidebar/UserRow/Clicks.antt =====
-- web/overlay/brand/PrivasysRows.tsx: what each click on the rendered row calls.
use attested_harness.Common.{
  ℕ, zero, suc, refl, Bool, true, false, List, [], ◌∷◌, Text, codes, ◌≡◌, ap,
}
use attested_harness.Page.{fire, bubble}
use attested_harness.Page.Clicks.{is_inert, are_inert, fire_in-nothing, fire-button}
use attested_harness.Sidebar.UserRow.{
  item_nodes, row_nodes, Action, toggle, sign_out, never, menu_item, row_button, user_row,
}

-- What stands where: the first place is the open menu with its only item, the last is the button.
abbrev pub on_row : (is_open : Bool) → List ℕ → List Action
on_row is_open [] = []
on_row true (zero ∷ []) = []
on_row true (zero ∷ zero ∷ path) = sign_out ∷ []
on_row true (zero ∷ suc i ∷ path) = []
on_row true (suc zero ∷ path) = toggle ∷ []
on_row true (suc (suc i) ∷ path) = []
on_row false (zero ∷ path) = toggle ∷ []
on_row false (suc i ∷ path) = []

item_inert : are_inert never (codes "click") item_nodes ≡ true
unfolding is_inert
item_inert = refl

row_inert :
    (wide : Bool) (name : Text) → are_inert never (codes "click") (row_nodes wide name) ≡ true
unfolding is_inert
row_inert true name = refl
row_inert false name = refl

fire-item : (path : List ℕ) → fire never (codes "click") path menu_item ≡ (sign_out ∷ [], false)
fire-item path =
    fire-button never (codes "click") path _ _ ((codes "click", sign_out) ∷ []) item_nodes
      item_inert

fire-row_button :
    (path : List ℕ) (wide is_open : Bool) (name : Text)
    → fire never (codes "click") path (row_button wide is_open name) ≡ (toggle ∷ [], false)
fire-row_button path wide is_open name =
    fire-button never (codes "click") path _ _ ((codes "click", toggle) ∷ []) (row_nodes wide name)
      (row_inert wide name)

above : (r s : List Action × Bool) → r ≡ s → (bubble never [] r).0 ≡ (bubble never [] s).0
above r s e = ap (λ (r : List Action × Bool). (bubble never [] r).0) e

-- A click calls the handler of the item or of the button that it falls on, and no other.
pub user_row-click :
    (wide is_open : Bool) (name : Text) (path : List ℕ)
    → (fire never (codes "click") path (user_row wide is_open name)).0 ≡ on_row is_open path
unfolding fire user_row
user_row-click wide true name [] = refl
user_row-click wide false name [] = refl
user_row-click wide true name (zero ∷ []) = refl
user_row-click wide true name (zero ∷ zero ∷ path) =
    above _ _ (ap (bubble never []) (fire-item path))
user_row-click wide true name (zero ∷ suc i ∷ path) =
    above _ _ (ap (bubble never []) (fire_in-nothing never (codes "click") path i))
user_row-click wide true name (suc zero ∷ path) = above _ _ (fire-row_button path wide true name)
user_row-click wide true name (suc (suc i) ∷ path) =
    above _ _ (fire_in-nothing never (codes "click") path i)
user_row-click wide false name (zero ∷ path) = above _ _ (fire-row_button path wide false name)
user_row-click wide false name (suc i ∷ path) =
    above _ _ (fire_in-nothing never (codes "click") path i)
