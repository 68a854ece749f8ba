-- ===== src/Sidebar/UserRow/Laws.antt =====
-- web/overlay/brand/PrivasysRows.tsx: the user row against a menu without listeners.
use attested_harness.Common.{
  and_true, closes_once, and_false, one_if, if_split, ap, ℕ, ◌+◌, ◌≡◌, refl, inl, inr, Bool, true,
  false, not, ◌&&◌, List, [], ◌∷◌, arith, if◌then◌else◌, Bool-cases, codes, same, sym, ◌∙◌, subst,
  ◌-◌,
}
use attested_harness.Page.{fire}
use attested_harness.Sidebar.UserRow.{
  Hooks, Action, toggle, sign_out, Row, mounted_row, unsubscribe, commit, act, act_all, Event,
  clicked, pointer_down, key_down, unmounted, never, heard, close_if, handle_event, step, run,
  shown_name, user_row,
}
use attested_harness.Sidebar.UserRow.Clicks.{on_row, user_row-click}
use attested_harness.Sidebar.UserRow.Menu.{
  Menu, menu_of, menu_act, menu_event, menu_step, menu_run, Listens, Fits, commit-Listens,
}

-- The handlers leave the listeners alone, and change the menu as they say.
act_all-menu_act :
    (hooks : Hooks) (on : Bool) (actions : List Action) (r : Row)
    → Listens on r
    → Listens on (act_all hooks actions r)
      × (menu_of (act_all hooks actions r) ≡ menu_act hooks actions (menu_of r))
act_all-menu_act hooks on [] r h = (h, refl)
act_all-menu_act hooks on (toggle ∷ actions) r h =
    act_all-menu_act hooks on actions (act hooks toggle r)
      (record { pointer = h.pointer; key = h.key; cleanup = h.cleanup })
act_all-menu_act hooks on (sign_out ∷ actions) r h =
    act_all-menu_act hooks on actions (act hooks sign_out r)
      (record { pointer = h.pointer; key = h.key; cleanup = h.cleanup })

close_if-menu :
    (closing : Bool) (on : Bool) (r : Row)
    → Listens on r
    → Listens on (close_if closing r)
      × (menu_of (close_if closing r) ≡ record (menu_of r) { is_open = r.is_open && not closing })
close_if-menu true on r h = (
  record { pointer = h.pointer; key = h.key; cleanup = h.cleanup },
  ap (λ o. record (menu_of r) { is_open = o }) (sym (and_false r.is_open)),
)
close_if-menu false on r h =
    (h, ap (λ o. record (menu_of r) { is_open = o }) (sym (and_true r.is_open)))

heard_one : (on : Bool) (n : ℕ) → n ≡ one_if on → heard n ≡ on
heard_one true n h = rw h refl
heard_one false n h = rw h refl

-- The end of an event on a row that is on the page.
commit-Fits :
    (before : Bool) (r : Row) (m : Menu)
    → Listens before r
    → menu_of r ≡ m
    → m.mounted ≡ true
    → Fits (commit before r) × (menu_of (commit before r) ≡ m)
commit-Fits before r m h e shown =
    let (fits, same_menu) = commit-Listens before r h in
    let on : (commit before r).mounted && (commit before r).is_open ≡ r.is_open =
      ap (λ (n : Menu). n.mounted && n.is_open) (same_menu ∙ e)
      ∙ ap (λ b. b && m.is_open) shown
      ∙ sym (ap (λ (n : Menu). n.is_open) e) in
    (subst (λ b. Listens b (commit before r)) (sym on) fits, same_menu ∙ e)

menu_act-mounted :
    (hooks : Hooks) (actions : List Action) (m : Menu)
    → (menu_act hooks actions m).mounted ≡ m.mounted
menu_act-mounted hooks [] m = refl
menu_act-mounted hooks (toggle ∷ actions) m =
    menu_act-mounted hooks actions (record m { is_open = not m.is_open })
menu_act-mounted hooks (sign_out ∷ actions) m =
    menu_act-mounted hooks actions
      (record m { is_open = false; logouts = m.logouts + one_if hooks.has_logout })

unsubscribe-Listens :
    (on : Bool) (r : Row)
    → Listens on r
    → Listens false (unsubscribe r) × (menu_of (unsubscribe r) ≡ menu_of r)
unsubscribe-Listens on r h =
    if_split (λ (q : Row). Listens false q × (menu_of q ≡ menu_of r)) r.has_cleanup
      (record r {
        has_cleanup = false;
        pointer_listeners = r.pointer_listeners - 1;
        key_listeners = r.key_listeners - 1;
      })
      r
      (λ e.
        let one : one_if on ≡ 1 = ap one_if (sym h.cleanup ∙ e) in
        (
          record {
            pointer = omega (arith, one, h.pointer);
            key = omega (arith, one, h.key);
            cleanup = refl;
          },
          refl,
        ))
      (λ e. (subst (λ b. Listens b r) (sym h.cleanup ∙ e) h, refl))

not-not : (b : Bool) → not (not b) ≡ b
not-not true = refl
not-not false = refl

module _ (wide : Bool) (hooks : Hooks) where
  -- The row with its listeners at an event that may close it.
  closed_by :
      (n : ℕ) (closing : Bool) (r : Row)
      → r.mounted ≡ true
      → Listens r.is_open r
      → n ≡ one_if r.is_open
      → Fits (commit r.is_open (close_if (heard n && closing) r))
        × (menu_of (commit r.is_open (close_if (heard n && closing) r))
            ≡ record (menu_of r) { is_open = r.is_open && not closing })
  closed_by n closing r on h e =
      let (kept, did) = close_if-menu (heard n && closing) r.is_open r h in
      let same_open =
        ap (λ o. r.is_open && not (o && closing)) (heard_one r.is_open n e)
        ∙ closes_once r.is_open closing in
      commit-Fits r.is_open (close_if (heard n && closing) r)
        (record (menu_of r) { is_open = r.is_open && not closing }) kept
        (did ∙ ap (λ o. record (menu_of r) { is_open = o }) same_open) on

  handled :
      (e : Event) (r : Row)
      → r.mounted ≡ true
      → Listens r.is_open r
      → Fits (handle_event wide hooks e r)
        × (menu_of (handle_event wide hooks e r) ≡ menu_event hooks e (menu_of r))
  handled (clicked path) r on h =
      let name = shown_name hooks.user_name in
      let actions = (fire never (codes "click") path (user_row wide r.is_open name)).0 in
      let (kept, did) = act_all-menu_act hooks r.is_open actions r h in
      commit-Fits r.is_open (act_all hooks actions r)
        (menu_act hooks (on_row r.is_open path) (menu_of r)) kept
        (did
          ∙ ap (λ called. menu_act hooks called (menu_of r))
              (user_row-click wide r.is_open name path))
        (menu_act-mounted hooks (on_row r.is_open path) (menu_of r) ∙ on)
  handled (pointer_down inside) r on h =
      let (fits, e) = closed_by r.pointer_listeners (not inside) r on h h.pointer in
      (fits, e ∙ ap (λ i. record (menu_of r) { is_open = r.is_open && i }) (not-not inside))
  handled (key_down key) r on h = closed_by r.key_listeners (same key (codes "Escape")) r on h h.key
  handled unmounted r on h =
      let (gone, e) = unsubscribe-Listens r.is_open r h in
      (
        record { pointer = gone.pointer; key = gone.key; cleanup = gone.cleanup },
        ap (λ (m : Menu). record m { mounted = false }) e,
      )

  -- The row and the menu behind an event, if the row is on the page and if it is not.
  abbrev Agree : Event → Row → Bool → Type 0
  Agree e r on =
      Fits (if on then handle_event wide hooks e r else r)
      × (menu_of (if on then handle_event wide hooks e r else r)
          ≡ (if on then menu_event hooks e (menu_of r) else menu_of r))

  step-Fits :
      (e : Event) (r : Row)
      → Fits r
      → Fits (step wide hooks e r) × (menu_of (step wide hooks e r) ≡ menu_step hooks e (menu_of r))
  unfolding step
  step-Fits e r h = elim (Bool-cases r.mounted) [
    | inl on ↦
        subst (Agree e r) (sym on) (handled e r on (subst (λ b. Listens (b && r.is_open) r) on h))
    | inr off ↦ subst (Agree e r) (sym off) (h, refl)
  ]

  run-menu_run :
      (es : List Event) (r : Row)
      → Fits r
      → Fits (run wide hooks es r) × (menu_of (run wide hooks es r) ≡ menu_run hooks es (menu_of r))
  unfolding run
  run-menu_run [] r h = (h, refl)
  run-menu_run (e ∷ es) r h =
      let (fits, did) = step-Fits e r h in
      let (kept, all_done) = run-menu_run es (step wide hooks e r) fits in
      (kept, all_done ∙ ap (menu_run hooks es) did)

  -- Whatever happens to the row from its mounting on, the user sees a menu that opens and closes by
  -- its button, closes on Escape and on a pointer outside, and whose only item closes it and signs
  -- out; and its two listeners stand at the document exactly while the row is there and open.
  pub run-Fits :
      (es : List Event)
      → Fits (run wide hooks es mounted_row)
        × (menu_of (run wide hooks es mounted_row) ≡ menu_run hooks es (menu_of mounted_row))
  run-Fits es = run-menu_run es mounted_row (record { pointer = refl; key = refl; cleanup = refl })
