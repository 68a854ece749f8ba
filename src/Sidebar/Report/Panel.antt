-- ===== src/Sidebar/Report/Panel.antt =====
-- web/overlay/brand/PrivasysAttestation.tsx: which clicks open the panel and which close it.
use attested_harness.Common.{
  ap, String, if_split, ℕ, zero, suc, ◌≡◌, refl, sym, ◌∙◌, subst, Bool, true, false, Option, none,
  some, List, [], ◌∷◌, All, Text, codes,
}
use attested_harness.Page.{Node, no_nodes, fire, fire_in, bubble}
use attested_harness.Page.Clicks.{
  is_inert, are_inert, fire-inert, fire_in-nothing, fire-leaf, fire-button,
}
use attested_harness.Sidebar.Report.{
  panel_parts, error_line, retry_button, retry_attributes, close_attributes, row_attributes,
  row_nodes, Action, open_panel, close_panel, stay_inside, retry, lift, Attested, row_button,
  close_button, title, panel_sub, failure, without_result, panel_body, panel, note, attestation_row,
  settle, stops,
}
use attested_harness.Sidebar.Report.Clicks.{
  open_after, Stays, settle-Stays, settle-append, bubble-Stays, click, lift-Stays,
}

module _ {C : Type 0} (view_stops : C → Bool) where
  settle-dialog :
      (r : List (Action C) × Bool) (is_open : Bool)
      → (settle (bubble (stops view_stops) (stay_inside ∷ []) r).0 is_open ≡ settle r.0 is_open)
        × ((bubble (stops view_stops) (stay_inside ∷ []) r).1 ≡ true)
  settle-dialog (inner, true) is_open = (refl, refl)
  settle-dialog (inner, false) is_open = (settle-append inner (stay_inside ∷ []) is_open, refl)

  -- What is called in the panel stops there, and the overlay behind it does not hear it.
  settle-overlay :
      (r : List (Action C) × Bool) (is_open : Bool)
      → r.1 ≡ true
      → settle (bubble (stops view_stops) (close_panel ∷ []) r).0 is_open ≡ settle r.0 is_open
  settle-overlay (inner, true) is_open h = refl
  settle-overlay (inner, false) is_open h = absurd (cc)

  Stays-of_nothing : (r : List (Action C) × Bool) → r ≡ ([], false) → All Stays r.0
  Stays-of_nothing r e = subst (λ (q : List (Action C) × Bool). All Stays q.0) (sym e) tt

  inert-Stays :
      (path : List ℕ) (n : Node (Action C))
      → is_inert (stops view_stops) (codes "click") n ≡ true
      → All Stays (click view_stops path n).0
  inert-Stays path n h =
      Stays-of_nothing (click view_stops path n)
        (fire-inert (stops view_stops) (codes "click") path n h)

  retry_button-Stays : (path : List ℕ) → All Stays (click view_stops path retry_button).0
  retry_button-Stays path =
      subst (λ (q : List (Action C) × Bool). All Stays q.0)
        (sym (
          fire-leaf (stops view_stops) (codes "click") path (codes "button") retry_attributes
            ((codes "click", retry) ∷ []) (codes "Retry")))
        (tt, tt)

  nothing_below :
      (path : List ℕ) (i : ℕ)
      → All Stays
          (bubble
            (stops view_stops)
            []
            (fire_in (stops view_stops) (codes "click") path i no_nodes)).0
  nothing_below path i =
      bubble-Stays view_stops [] (fire_in (stops view_stops) (codes "click") path i no_nodes) tt (
        Stays-of_nothing (fire_in (stops view_stops) (codes "click") path i no_nodes)
          (fire_in-nothing (stops view_stops) (codes "click") path i))

  failure-Stays :
      (path : List ℕ) (error : Text) → All Stays (click view_stops path (failure error)).0
  unfolding fire is_inert
  failure-Stays [] error = tt
  failure-Stays (zero ∷ path) error =
      bubble-Stays view_stops [] (click view_stops path (error_line error)) tt
        (inert-Stays path (error_line error) refl)
  failure-Stays (suc zero ∷ path) error =
      bubble-Stays view_stops [] (click view_stops path retry_button) tt (retry_button-Stays path)
  failure-Stays (suc (suc i) ∷ path) error = nothing_below path i

  note-Stays : (path : List ℕ) (s : String) → All Stays (click view_stops path (note s)).0
  unfolding is_inert
  note-Stays path s = inert-Stays path (note s) refl

  without_result-Stays :
      (path : List ℕ) (o : Option Text) → All Stays (click view_stops path (without_result o)).0
  without_result-Stays path (some error) = failure-Stays path error
  without_result-Stays path none = note-Stays path "Verifying the enclave…"

  panel_body-Stays :
      (badge view : Node C) (path : List ℕ) (attest_url : Text) (s : Attested)
      → All Stays (click view_stops path (panel_body badge view attest_url s)).0
  panel_body-Stays badge view path [] s =
      note-Stays path "Attestation is not configured for this instance."
  panel_body-Stays badge view path (c ∷ url) s =
      if_split (λ (n : Node (Action C)). All Stays (click view_stops path n).0) s.has_result
        (lift view) (without_result s.error) (λ _. lift-Stays view_stops path view)
        (λ _. without_result-Stays path s.error)

  settle-bubble_nothing :
      (r : List (Action C) × Bool) (is_open : Bool)
      → settle (bubble (stops view_stops) [] r).0 is_open ≡ settle r.0 is_open
  settle-bubble_nothing (inner, true) is_open = refl
  settle-bubble_nothing (inner, false) is_open = settle-append inner [] is_open

  in_head :
      (r : List (Action C) × Bool)
      → settle
          (bubble (stops view_stops) (stay_inside ∷ []) (bubble (stops view_stops) [] r)).0
          true
        ≡ settle r.0 true
  in_head r = (settle-dialog (bubble (stops view_stops) [] r) true).0 ∙ settle-bubble_nothing r true

  close_button-closes :
      (path : List ℕ) → (click view_stops path (close_button)).0 ≡ close_panel ∷ []
  close_button-closes path =
      ap (λ (q : List (Action C) × Bool). q.0)
        (fire-leaf (stops view_stops) (codes "click") path (codes "button") close_attributes
          ((codes "click", close_panel) ∷ []) (codes "×"))

  module _ (badge view : Node C) where
    -- What a click in the panel leaves of `open`.
    in_parts :
        (url : Text) (s : Attested) (path : List ℕ)
        → settle (click view_stops path (panel badge view url s)).0 true
          ≡ open_after true (suc zero ∷ zero ∷ path)
    unfolding fire is_inert
    in_parts url s [] = refl
    in_parts url s (zero ∷ []) = refl
    in_parts url s (zero ∷ zero ∷ path) =
        in_head (click view_stops path title) ∙ settle-Stays _ true (inert-Stays path title refl)
    in_parts url s (zero ∷ suc zero ∷ path) =
        in_head (click view_stops path close_button)
        ∙ ap (λ (called : List (Action C)). settle called true) (close_button-closes path)
    in_parts url s (zero ∷ suc (suc i) ∷ path) = refl
    in_parts url s (suc zero ∷ path) =
        (settle-dialog (click view_stops path panel_sub) true).0
        ∙ settle-Stays _ true (inert-Stays path panel_sub refl)
    in_parts url s (suc (suc zero) ∷ path) =
        (settle-dialog (click view_stops path (panel_body badge view url s)) true).0
        ∙ settle-Stays _ true (panel_body-Stays badge view path url s)
    in_parts url s (suc (suc (suc i)) ∷ path) = refl

    panel_stops :
        (url : Text) (s : Attested) (path : List ℕ)
        → (click view_stops path (panel badge view url s)).1 ≡ true
    unfolding fire
    panel_stops url s [] = refl
    panel_stops url s (i ∷ path) =
        (settle-dialog
          (fire_in (stops view_stops) (codes "click") path i (panel_parts badge view url s)) true).1

    module _ (silent : is_inert (stops view_stops) (codes "click") (lift badge) ≡ true) where
      row_nodes_inert :
          (wide : Bool)
          → are_inert (stops view_stops) (codes "click") (row_nodes badge view wide) ≡ true
      unfolding is_inert
      row_nodes_inert true = rw silent refl
      row_nodes_inert false = refl

      settle-row_button :
          (path : List ℕ) (wide is_open : Bool) (status : Text)
          → settle (click view_stops path (row_button badge view wide status)).0 is_open ≡ true
      settle-row_button path wide is_open status =
          ap (λ (q : List (Action C) × Bool). settle q.0 is_open)
            (fire-button (stops view_stops) (codes "click") path (codes "button")
              (row_attributes wide status) ((codes "click", open_panel) ∷ [])
              (row_nodes badge view wide) (row_nodes_inert wide))

      -- If the badge handles no clicks: a click on the row opens the panel; on the open panel, a click
      -- on the overlay around it or on its closing button closes it, and a click on anything else in
      -- it, whatever the shared view's own handlers do and stop, leaves it open.
      pub attestation_row-click :
          (wide is_open : Bool) (status attest_url : Text) (s : Attested) (i : ℕ) (path : List ℕ)
          → settle
              (fire_in
                (stops view_stops)
                (codes "click")
                path
                i
                (attestation_row badge view wide is_open status attest_url s)).0
              is_open
            ≡ open_after is_open (i ∷ path)
      unfolding fire attestation_row
      attestation_row-click wide o status url s zero path = settle-row_button path wide o status
      attestation_row-click wide false status url s (suc i) path =
          ap (λ (q : List (Action C) × Bool). settle q.0 false)
            (fire_in-nothing (stops view_stops) (codes "click") path i)
      attestation_row-click wide true status url s (suc zero) [] = refl
      attestation_row-click wide true status url s (suc zero) (zero ∷ path) =
          settle-overlay (click view_stops path (panel badge view url s)) true
            (panel_stops url s path)
          ∙ in_parts url s path
      attestation_row-click wide true status url s (suc zero) (suc i ∷ path) = refl
      attestation_row-click wide true status url s (suc (suc i)) path =
          ap (λ (q : List (Action C) × Bool). settle q.0 true)
            (fire_in-nothing (stops view_stops) (codes "click") path i)
