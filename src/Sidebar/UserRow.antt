-- ===== src/Sidebar/UserRow.antt =====
-- web/overlay/brand/PrivasysRows.tsx: the user row with its menu.
pub mod Clicks
pub mod Menu
pub mod Laws
use attested_harness.Common.{
  one_if, String, ℕ, zero, suc, ◌+◌, ◌-◌, Bool, true, false, not, ◌&&◌, ◌||◌, Option, none, some,
  List, [], ◌∷◌, if◌then◌else◌, there, Text, codes, same,
}
use attested_harness.Page.{Node, Nodes, words, element, no_nodes, node, fire}
use attested_harness.Sidebar.{
  attribute, plain, clickable, only, icon, path_shape, row_class, icon_size,
}

-- What the row finds in `window.__PRIVASYS_SHELL__`: whether `logout` is there, and what `userName`
-- gives, if it is there and gives a name.
pub record Hooks : Type 0 where
  pub has_logout : Bool
  pub user_name : Option Text

abbrev or_user : Text → Text
or_user [] = codes "User"
or_user (c ∷ s) = c ∷ s

-- `shell().userName?.() || 'User'`.
abbrev pub shown_name : Option Text → Text
shown_name none = codes "User"
shown_name (some name) = or_user name

-- The handlers of the row.
pub data Action : Type 0 where
  toggle sign_out : Action

abbrev user_icon : Bool → Node Action
user_icon wide = icon (icon_size wide) (
    node
      (plain "circle" (attribute "cx" "12" ∷ attribute "cy" "8" ∷ attribute "r" "4" ∷ []) no_nodes)
      (only (path_shape "M4 21c0-4 3.6-6 8-6s8 2 8 6")))

abbrev sign_out_icon : Node Action
sign_out_icon = icon "15" (
    node (path_shape "M9 21H5a2 2 0 0 1-2-2V5a2 2 0 0 1 2-2h4")
      (node (path_shape "m16 17 5-5-5-5") (only (path_shape "M21 12H9"))))

abbrev pub item_nodes : Nodes Action
item_nodes = node sign_out_icon (only (plain "span" [] (only (words (codes "Sign out")))))

abbrev pub menu_item : Node Action
menu_item =
    clickable "button"
      (attribute "type" "button"
        ∷ attribute "className" "pv-menu-item"
        ∷ attribute "role" "menuitem"
        ∷ [])
      sign_out item_nodes

abbrev pub menu : Node Action
menu =
    plain "div"
      (attribute "className" "pv-menu"
        ∷ attribute "role" "menu"
        ∷ attribute "aria-label" "User"
        ∷ [])
      (only menu_item)

abbrev label : Bool → Text → Nodes Action
label true name = only (
    plain "span"
      (attribute "style"
          "white-space: nowrap; overflow: hidden; text-overflow: ellipsis; min-width: 0"
        ∷ [])
      (only (words name)))
label false name = no_nodes

abbrev pub row_nodes : Bool → Text → Nodes Action
row_nodes wide name = node (user_icon wide) (label wide name)

abbrev shown_bool : Bool → String
shown_bool true = "true"
shown_bool false = "false"

abbrev pub row_button : Bool → Bool → Text → Node Action
row_button wide is_open name =
    clickable "button"
      (attribute "type" "button"
        ∷ attribute "className" (row_class wide)
        ∷ (codes "title", name)
        ∷ (codes "aria-label", name)
        ∷ attribute "aria-haspopup" "menu"
        ∷ attribute "aria-expanded" (shown_bool is_open)
        ∷ [])
      toggle (row_nodes wide name)

abbrev with_menu : Bool → Nodes Action → Nodes Action
with_menu true below = node menu below
with_menu false below = below

-- What `PrivasysUserRow` renders.
unfoldable pub user_row : (wide is_open : Bool) (name : Text) → Node Action
user_row wide is_open name =
    plain "div" (attribute "className" "pv-user-wrap" ∷ [])
      (with_menu is_open (only (row_button wide is_open name)))

-- The row's state: `open`, whether it is on the page, whether its effect gave a cleanup, how often
-- its listeners stand at the document, and how often it called the shell's logout.
pub record Row : Type 0 where
  pub is_open : Bool
  pub mounted : Bool
  pub has_cleanup : Bool
  pub pointer_listeners : ℕ
  pub key_listeners : ℕ
  pub logouts : ℕ

abbrev pub mounted_row : Row
mounted_row = record {
  is_open = false;
  mounted = true;
  has_cleanup = false;
  pointer_listeners = 0;
  key_listeners = 0;
  logouts = 0;
}

-- The effect on `open`, and the cleanup that it gave.
abbrev pub subscribe : Row → Row
subscribe r =
    if r.is_open
    then record r {
      has_cleanup = true;
      pointer_listeners = suc r.pointer_listeners;
      key_listeners = suc r.key_listeners;
    }
    else r

abbrev pub unsubscribe : Row → Row
unsubscribe r =
    if r.has_cleanup
    then record r {
      has_cleanup = false;
      pointer_listeners = r.pointer_listeners - 1;
      key_listeners = r.key_listeners - 1;
    }
    else r

-- React's commit behind a rendering: the effect runs only if `open` changed.
unfoldable pub commit : (before : Bool) → Row → Row
commit true r = if r.is_open then r else subscribe (unsubscribe r)
commit false r = if r.is_open then subscribe (unsubscribe r) else r

-- What a handler does.
abbrev pub act : Hooks → Action → Row → Row
act hooks toggle r = record r { is_open = not r.is_open }
act hooks sign_out r = record r { is_open = false; logouts = r.logouts + one_if hooks.has_logout }

abbrev pub act_all : Hooks → List Action → Row → Row
act_all hooks [] r = r
act_all hooks (a ∷ actions) r = act_all hooks actions (act hooks a r)

-- A click on a node of the row, a pointer that goes down inside or outside the row, a key, or the
-- row's leaving the page.
pub data Event : Type 0 where
  clicked : (path : List ℕ) → Event
  pointer_down : (inside : Bool) → Event
  key_down : (key : Text) → Event
  unmounted : Event

abbrev pub never : Action → Bool
never a = false

abbrev heard : ℕ → Bool
heard zero = false
heard (suc n) = true

abbrev close_if : Bool → Row → Row
close_if true r = record r { is_open = false }
close_if false r = r

-- What an event does to a row on the page.
abbrev pub handle_event : (wide : Bool) → Hooks → Event → Row → Row
handle_event wide hooks (clicked path) r =
    let name = shown_name hooks.user_name in
    commit r.is_open
      (act_all hooks (fire never (codes "click") path (user_row wide r.is_open name)).0 r)
handle_event wide hooks (pointer_down inside) r =
    commit r.is_open (close_if (heard r.pointer_listeners && not inside) r)
handle_event wide hooks (key_down key) r =
    commit r.is_open (close_if (heard r.key_listeners && same key (codes "Escape")) r)
handle_event wide hooks unmounted r = record (unsubscribe r) { mounted = false }

unfoldable pub step : (wide : Bool) → Hooks → Event → Row → Row
unfolding commit user_row fire
step wide hooks e r = if r.mounted then handle_event wide hooks e r else r

unfoldable pub run : (wide : Bool) → Hooks → List Event → Row → Row
unfolding step
run wide hooks [] r = r
run wide hooks (e ∷ es) r = run wide hooks es (step wide hooks e r)
