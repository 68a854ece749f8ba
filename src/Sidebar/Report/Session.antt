-- ===== src/Sidebar/Report/Session.antt =====
-- web/overlay/brand/PrivasysAttestation.tsx: the attestation row over a history of events.
use attested_harness.Common.{
  one_if, closes_once, if_split, ℕ, ◌-◌, ◌≡◌, refl, sym, ap, ◌∙◌, subst, Bool, true, false, not,
  ◌&&◌, List, [], ◌∷◌, arith, codes, same, inl, inr, if◌then◌else◌, Bool-cases,
}
use attested_harness.Page.{Node}
use attested_harness.Page.Clicks.{is_inert}
use attested_harness.Sidebar.Report.{stops, lift, settle}
use attested_harness.Sidebar.Report.Clicks.{open_after}
use attested_harness.Sidebar.Report.Panel.{attestation_row-click}
use attested_harness.Sidebar.Report.State.{
  Opening, mounted_opening, unlisten, commit_open, Event, clicked, key_down, unmounted, is_heard,
  called, handle_opening, step_opening, run_opening,
}

-- Whether the panel is open and the row on the page, without the listener.
abbrev pub panel_step : Event → Bool × Bool → Bool × Bool
panel_step e (is_open, false) = (is_open, false)
panel_step (clicked s i path) (is_open, true) = (open_after is_open (i ∷ path), true)
panel_step (key_down key) (is_open, true) = (is_open && not (same key (codes "Escape")), true)
panel_step unmounted (is_open, true) = (is_open, false)

abbrev pub panel_run : List Event → Bool × Bool → Bool × Bool
panel_run [] p = p
panel_run (e ∷ es) p = panel_run es (panel_step e p)

abbrev pub panel_of : Opening → Bool × Bool
panel_of r = (r.is_open, r.mounted)

-- The listener stands at the document once or not at all, and the effect's cleanup goes with it.
pub record Hears (on : Bool) (r : Opening) : Type 0 where
  pub key : r.key_listeners ≡ one_if on
  pub cleanup : r.has_cleanup ≡ on

abbrev pub Settled : Opening → Type 0
Settled r = Hears (r.mounted && r.is_open) r

abbrev opening_of : (is_open mounted has_cleanup : Bool) (key : ℕ) → Opening
opening_of is_open mounted has_cleanup key = record {
  is_open = is_open;
  mounted = mounted;
  has_cleanup = has_cleanup;
  key_listeners = key;
}

commit-opening_of :
    (before is_open has_cleanup : Bool) (key : ℕ)
    → Hears before (opening_of is_open true has_cleanup key)
    → Settled (commit_open before (opening_of is_open true has_cleanup key))
      × (panel_of (commit_open before (opening_of is_open true has_cleanup key)) ≡ (is_open, true))
unfolding commit_open
commit-opening_of true true c k h = (h, refl)
commit-opening_of false false c k h = (h, refl)
commit-opening_of true false true k h =
    (record { key = omega (arith, h.key); cleanup = refl }, refl)
commit-opening_of true false false k h = absurd (cc (h.cleanup))
commit-opening_of false true true k h = absurd (cc (h.cleanup))
commit-opening_of false true false k h =
    (record { key = omega (arith, h.key); cleanup = refl }, refl)

-- The end of an event on a row that is on the page, which leaves `open` as `after`.
commit-Settled :
    (after : Bool) (r : Opening)
    → r.mounted ≡ true
    → Hears r.is_open r
    → Settled (commit_open r.is_open (record r { is_open = after }))
      × (panel_of (commit_open r.is_open (record r { is_open = after })) ≡ (after, true))
commit-Settled after r on h =
    subst
      (λ m.
        Settled (commit_open r.is_open (opening_of after m r.has_cleanup r.key_listeners))
        × (panel_of (commit_open r.is_open (opening_of after m r.has_cleanup r.key_listeners))
            ≡ (after, true)))
      (sym on)
      (commit-opening_of r.is_open after r.has_cleanup r.key_listeners
        (record { key = h.key; cleanup = h.cleanup }))

heard-Hears : (on : Bool) (n : ℕ) → n ≡ one_if on → is_heard n ≡ on
heard-Hears true n h = rw h refl
heard-Hears false n h = rw h refl

unlisten-Hears :
    (on : Bool) (r : Opening)
    → Hears on r
    → Hears false (unlisten r) × (panel_of (unlisten r) ≡ panel_of r)
unlisten-Hears on r h =
    if_split (λ (q : Opening). Hears false q × (panel_of q ≡ panel_of r)) r.has_cleanup
      (record r { has_cleanup = false; key_listeners = r.key_listeners - 1 }) r
      (λ e.
        let one : one_if on ≡ 1 = ap one_if (sym h.cleanup ∙ e) in
        (record { key = omega (arith, one, h.key); cleanup = refl }, refl))
      (λ e. (subst (λ b. Hears b r) (sym h.cleanup ∙ e) h, refl))

module _ {C : Type 0} (view_stops : C → Bool) (badge view : Node C)
    (silent : is_inert (stops view_stops) (codes "click") (lift badge) ≡ true) where
  -- The row behind an event agrees with the panel without listener.
  abbrev Agrees : Event → Opening → Opening → Type 0
  Agrees e r q = Settled q × (panel_of q ≡ panel_step e (r.is_open, true))

  handled :
      (e : Event) (r : Opening)
      → r.mounted ≡ true
      → Hears r.is_open r
      → Agrees e r (handle_opening view_stops badge view e r)
  handled (clicked s i path) r on h =
      let clicks =
        attestation_row-click view_stops badge view silent s.wide r.is_open s.status s.attest_url
          s.attested i path in
      let (fits, did) =
        commit-Settled (settle (called view_stops badge view r.is_open s i path) r.is_open) r on
          h in
      (fits, did ∙ ap (λ (o : Bool). (o, true)) clicks)
  handled (key_down key) r on h =
      let escape = same key (codes "Escape") in
      let (fits, did) =
        commit-Settled (r.is_open && not (is_heard r.key_listeners && escape)) r on h in
      let same_open =
        ap (λ o. r.is_open && not (o && escape)) (heard-Hears r.is_open r.key_listeners h.key)
        ∙ closes_once r.is_open escape in
      (fits, did ∙ ap (λ (o : Bool). (o, true)) same_open)
  handled unmounted r on h =
      let (gone, did) = unlisten-Hears r.is_open r h in
      (
        record { key = gone.key; cleanup = gone.cleanup },
        ap (λ (p : Bool × Bool). (p.0, false)) did,
      )

  step-Settled :
      (e : Event) (r : Opening)
      → Settled r
      → Settled (step_opening view_stops badge view e r)
        × (panel_of (step_opening view_stops badge view e r) ≡ panel_step e (panel_of r))
  unfolding step_opening
  step-Settled e r h = elim (Bool-cases r.mounted) [
    | inl on ↦
        subst
          (λ b.
            Settled (if b then handle_opening view_stops badge view e r else r)
            × (panel_of (if b then handle_opening view_stops badge view e r else r)
                ≡ panel_step e (r.is_open, b)))
          (sym on) (handled e r on (subst (λ b. Hears (b && r.is_open) r) on h))
    | inr off ↦
        subst
          (λ b.
            Settled (if b then handle_opening view_stops badge view e r else r)
            × (panel_of (if b then handle_opening view_stops badge view e r else r)
                ≡ panel_step e (r.is_open, b)))
          (sym off) (h, ap (λ (m : Bool). (r.is_open, m)) off)
  ]

  run-panel_run :
      (es : List Event) (r : Opening)
      → Settled r
      → Settled (run_opening view_stops badge view es r)
        × (panel_of (run_opening view_stops badge view es r) ≡ panel_run es (panel_of r))
  unfolding run_opening
  run-panel_run [] r h = (h, refl)
  run-panel_run (e ∷ es) r h =
      let (fits, did) = step-Settled e r h in
      let (kept, all_done) = run-panel_run es (step_opening view_stops badge view e r) fits in
      (kept, all_done ∙ ap (panel_run es) did)

  -- If the badge handles no clicks: whatever happens to the attestation row from its mounting on, a
  -- click on the row opens the panel; Escape, a click on the overlay around it and one on its
  -- closing button close it, and no other click does, whatever the shared view's own handlers do
  -- and stop; and the listener on Escape stands at the document exactly while the row is there and
  -- the panel open.
  pub run-Settled :
      (es : List Event)
      → Settled (run_opening view_stops badge view es mounted_opening)
        × (panel_of (run_opening view_stops badge view es mounted_opening)
            ≡ panel_run es (panel_of mounted_opening))
  run-Settled es = run-panel_run es mounted_opening (record { key = refl; cleanup = refl })
