-- ===== src/Sidebar/Tests.antt =====
-- The sidebar's rows at concrete clicks. The shared view of these tests is a button that stops its
-- clicks.
use attested_harness.Common.{ℕ, ◌≡◌, refl, Bool, true, false, none, some, List, [], ◌∷◌, codes}
use attested_harness.Page.{Node, words}
use attested_harness.Page.Clicks.{is_inert}
use attested_harness.Sidebar.{only, plain, clickable, ensure_styles}
use attested_harness.Sidebar.UserRow.{
  Hooks, Event, clicked, pointer_down, key_down, unmounted, mounted_row, run,
}
use attested_harness.Sidebar.UserRow.Laws.{run-Fits}
use attested_harness.Sidebar.UserRow.Menu.{Fits, menu_of, menu_run}
use attested_harness.Sidebar.Report.{Attested, lift}
use attested_harness.Sidebar.Report.State
use attested_harness.Sidebar.Report.State.{Shown, mounted_opening, run_opening}
use attested_harness.Sidebar.Report.Session.{Settled, panel_of, panel_run, run-Settled}

abbrev hooks : Hooks
hooks = record { has_logout = true; user_name = some (codes "Ada") }

-- The menu is opened, closed by Escape, opened again, and used to sign out; then the row goes.
abbrev history : List Event
history =
    clicked (0 ∷ [])
    ∷ key_down (codes "Escape")
    ∷ clicked (0 ∷ 0 ∷ [])
    ∷ pointer_down true
    ∷ clicked (0 ∷ 0 ∷ 1 ∷ [])
    ∷ clicked (0 ∷ [])
    ∷ unmounted
    ∷ []

history_test : run true hooks history mounted_row ≡ record {
  is_open = true;
  mounted = false;
  has_cleanup = false;
  pointer_listeners = 0;
  key_listeners = 0;
  logouts = 1;
}
unfolding run
history_test = refl

run-Fits_example :
    Fits (run true hooks history mounted_row)
    × (menu_of (run true hooks history mounted_row) ≡ menu_run hooks history (menu_of mounted_row))
run-Fits_example = run-Fits true hooks history

styles_test :
    ensure_styles (codes "b") (ensure_styles (codes "b") (ensure_styles (codes "a") []))
    ≡ codes "a" ∷ codes "b" ∷ []
unfolding ensure_styles
styles_test = refl

abbrev badge : Node ℕ
badge = plain "span" [] (only (words (codes "ok")))

abbrev view : Node ℕ
view = clickable "button" [] 7 (only (words (codes "Refresh")))

abbrev stopped : ℕ → Bool
stopped n = true

abbrev with_result : Attested
with_result = record { error = none; has_result = true }

abbrev shown : Shown
shown = record {
  wide = true;
  status = codes "verified";
  attest_url = codes "https://x";
  attested = with_result;
}

-- The panel is opened, survives a click on the shared view's button, and is closed by the overlay;
-- opened again, it is closed by Escape.
abbrev session : List State.Event
session =
    State.clicked shown 0 []
    ∷ State.clicked shown 1 (0 ∷ 2 ∷ 0 ∷ [])
    ∷ State.clicked shown 1 []
    ∷ State.clicked shown 0 (0 ∷ [])
    ∷ State.key_down (codes "Escape")
    ∷ []

session_test : run_opening stopped badge view session mounted_opening ≡ mounted_opening
unfolding run_opening
session_test = refl

run-Settled_example :
    Settled (run_opening stopped badge view session mounted_opening)
    × (panel_of (run_opening stopped badge view session mounted_opening)
        ≡ panel_run session (panel_of mounted_opening))
unfolding is_inert lift
run-Settled_example = run-Settled stopped badge view refl session
