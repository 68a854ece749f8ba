-- ===== src/Sidebar/Report/State.antt =====
-- web/overlay/brand/PrivasysAttestation.tsx: the state of the attestation row, its effect on the
-- Escape key, and the events.
use attested_harness.Common.{
  ℕ, zero, suc, ◌-◌, Bool, true, false, not, ◌&&◌, List, [], ◌∷◌, if◌then◌else◌, Text, codes, same,
}
use attested_harness.Page.{fire, Node, fire_in}
use attested_harness.Sidebar.Report.{lift, Action, Attested, attestation_row, settle, stops}

-- `open`, whether the row is on the page, whether its effect gave a cleanup, and how often its
-- listener stands at the document.
pub record Opening : Type 0 where
  pub is_open : Bool
  pub mounted : Bool
  pub has_cleanup : Bool
  pub key_listeners : ℕ

abbrev pub mounted_opening : Opening
mounted_opening = record { is_open = false; mounted = true; has_cleanup = false; key_listeners = 0 }

-- The effect on `open`, and the cleanup that it gave.
abbrev pub listen : Opening → Opening
listen r =
    if r.is_open then record r { has_cleanup = true; key_listeners = suc r.key_listeners } else r

abbrev pub unlisten : Opening → Opening
unlisten r =
    if r.has_cleanup
    then record r { has_cleanup = false; key_listeners = r.key_listeners - 1 }
    else r

-- React's commit: the effect runs only if `open` changed.
unfoldable pub commit_open : (before : Bool) → Opening → Opening
commit_open true r = if r.is_open then r else listen (unlisten r)
commit_open false r = if r.is_open then listen (unlisten r) else r

-- How the row is rendered: its width, the status, the report's address and what has come of it.
pub record Shown : Type 0 where
  pub wide : Bool
  pub status : Text
  pub attest_url : Text
  pub attested : Attested

-- A click on a node of the row as it is rendered by then, a key, or the row's leaving the page.
pub data Event : Type 0 where
  clicked : Shown → (i : ℕ) (path : List ℕ) → Event
  key_down : (key : Text) → Event
  unmounted : Event

abbrev pub is_heard : ℕ → Bool
is_heard zero = false
is_heard (suc n) = true

module _ {C : Type 0} (view_stops : C → Bool) (badge view : Node C) where
  -- The handlers that a click calls.
  abbrev pub called : Bool → Shown → ℕ → List ℕ → List (Action C)
  called is_open s i path =
      (fire_in (stops view_stops) (codes "click") path i
        (attestation_row badge view s.wide is_open s.status s.attest_url s.attested)).0

  abbrev pub handle_opening : Event → Opening → Opening
  handle_opening (clicked s i path) r =
      commit_open r.is_open (record r { is_open = settle (called r.is_open s i path) r.is_open })
  handle_opening (key_down key) r = commit_open r.is_open (record r {
    is_open = r.is_open && not (is_heard r.key_listeners && same key (codes "Escape"));
  })
  handle_opening unmounted r = record (unlisten r) { mounted = false }

  unfoldable pub step_opening : Event → Opening → Opening
  unfolding commit_open attestation_row fire lift
  step_opening e r = if r.mounted then handle_opening e r else r

  unfoldable pub run_opening : List Event → Opening → Opening
  unfolding step_opening
  run_opening [] r = r
  run_opening (e ∷ es) r = run_opening es (step_opening e r)
