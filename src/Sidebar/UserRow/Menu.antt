-- ===== src/Sidebar/UserRow/Menu.antt =====
-- web/overlay/brand/PrivasysRows.tsx: a menu without listeners, and the row's effect.
use attested_harness.Common.{
  one_if, ℕ, ◌+◌, ◌≡◌, refl, Bool, true, false, not, ◌&&◌, List, [], ◌∷◌, arith, if◌then◌else◌,
  codes, same,
}
use attested_harness.Sidebar.UserRow.{
  Hooks, Action, toggle, sign_out, Row, commit, Event, clicked, pointer_down, key_down, unmounted,
}
use attested_harness.Sidebar.UserRow.Clicks.{on_row}

-- What the user sees: whether the menu is open and the row on the page, and the calls of logout.
pub record Menu : Type 0 where
  pub is_open : Bool
  pub mounted : Bool
  pub logouts : ℕ

abbrev pub menu_of : Row → Menu
menu_of r = record { is_open = r.is_open; mounted = r.mounted; logouts = r.logouts }

abbrev pub menu_act : Hooks → List Action → Menu → Menu
menu_act hooks [] m = m
menu_act hooks (toggle ∷ actions) m = menu_act hooks actions (record m { is_open = not m.is_open })
menu_act hooks (sign_out ∷ actions) m =
    menu_act hooks actions
      (record m { is_open = false; logouts = m.logouts + one_if hooks.has_logout })

-- The menu that the row is to be: it closes on a pointer outside and on Escape, the button opens and
-- closes it, and its item closes it and signs out.
abbrev pub menu_event : Hooks → Event → Menu → Menu
menu_event hooks (clicked path) m = menu_act hooks (on_row m.is_open path) m
menu_event hooks (pointer_down inside) m = record m { is_open = m.is_open && inside }
menu_event hooks (key_down key) m = record m {
  is_open = m.is_open && not (same key (codes "Escape"));
}
menu_event hooks unmounted m = record m { mounted = false }

abbrev pub menu_step : Hooks → Event → Menu → Menu
menu_step hooks e m = if m.mounted then menu_event hooks e m else m

abbrev pub menu_run : Hooks → List Event → Menu → Menu
menu_run hooks [] m = m
menu_run hooks (e ∷ es) m = menu_run hooks es (menu_step hooks e m)

-- The listeners stand at the document once, or not at all, and the effect's cleanup goes with them.
pub record Listens (on : Bool) (r : Row) : Type 0 where
  pub pointer : r.pointer_listeners ≡ one_if on
  pub key : r.key_listeners ≡ one_if on
  pub cleanup : r.has_cleanup ≡ on

-- The row listens while it is on the page with its menu open.
abbrev pub Fits : Row → Type 0
Fits r = Listens (r.mounted && r.is_open) r

abbrev row_of : (is_open mounted has_cleanup : Bool) (pointer key logouts : ℕ) → Row
row_of is_open mounted has_cleanup pointer key logouts = record {
  is_open = is_open;
  mounted = mounted;
  has_cleanup = has_cleanup;
  pointer_listeners = pointer;
  key_listeners = key;
  logouts = logouts;
}

commit-row_of :
    (before is_open mounted has_cleanup : Bool) (pointer key logouts : ℕ)
    → Listens before (row_of is_open mounted has_cleanup pointer key logouts)
    → Listens is_open (commit before (row_of is_open mounted has_cleanup pointer key logouts))
      × (menu_of (commit before (row_of is_open mounted has_cleanup pointer key logouts))
          ≡ record { is_open = is_open; mounted = mounted; logouts = logouts })
unfolding commit
commit-row_of true true m c p k l h = (h, refl)
commit-row_of false false m c p k l h = (h, refl)
commit-row_of true false m true p k l h = (
  record { pointer = omega (arith, h.pointer); key = omega (arith, h.key); cleanup = refl },
  refl,
)
commit-row_of true false m false p k l h = absurd (cc (h.cleanup))
commit-row_of false true m true p k l h = absurd (cc (h.cleanup))
commit-row_of false true m false p k l h = (
  record { pointer = omega (arith, h.pointer); key = omega (arith, h.key); cleanup = refl },
  refl,
)

-- Behind a rendering that shows the row with `before` as it was, the listeners fit the new state.
pub commit-Listens :
    (before : Bool) (r : Row)
    → Listens before r
    → Listens r.is_open (commit before r) × (menu_of (commit before r) ≡ menu_of r)
commit-Listens before r h =
    commit-row_of before r.is_open r.mounted r.has_cleanup r.pointer_listeners r.key_listeners
      r.logouts h
