-- ===== src/Sidebar/Report.antt =====
-- web/overlay/brand/PrivasysAttestation.tsx: the attestation row and the panel behind it. The shared
-- attestation view and its badge, which are copied from another project, are parameters: nodes whose
-- handlers make calls of a type `C`.
pub mod Clicks
pub mod Panel
pub mod State
pub mod Session
use attested_harness.Common.{
  String, text, ℕ, suc, Bool, true, false, not, Option, none, some, List, [], ◌∷◌, ◌++◌,
  if◌then◌else◌, there, Text, codes, same,
}
use attested_harness.Page.{Node, Nodes, words, element, no_nodes, node}
use attested_harness.Sidebar.{
  attribute, plain, clickable, only, icon, path_shape, row_class, icon_size,
}

-- The handlers of the component: those of its own elements, and the calls of the shared view.
pub data Action (C : Type 0) : Type 0 where
  open_panel close_panel stay_inside retry : Action C
  of_view : (call : C) → Action C

abbrev lift_handlers : {C : Type 0} → List (Text × C) → List (Text × Action C)
lift_handlers [] = []
lift_handlers ((event, c) ∷ handlers) = (event, of_view c) ∷ lift_handlers handlers

-- The nodes of the shared view as nodes of the component.
unfoldable mutual
  pub lift : {C : Type 0} → Node C → Node (Action C)
  lift (words s) = words s
  lift (element tag attributes handlers children) =
      element tag attributes (lift_handlers handlers) (lift_all children)

  pub lift_all : {C : Type 0} → Nodes C → Nodes (Action C)
  lift_all no_nodes = no_nodes
  lift_all (node n ns) = node (lift n) (lift_all ns)

-- What `useAttestation` has by now: the error, if there is one with a text, and whether there is a
-- result.
pub record Attested : Type 0 where
  pub error : Option Text
  pub has_result : Bool

-- `cfg.attestUrl ?? ''`.
abbrev pub attest_url_or : Option Text → Text
attest_url_or none = []
attest_url_or (some url) = url

-- `cfg.verifyQuoteUrl ?? …`.
abbrev pub verify_quote_url_or : Option Text → Text
verify_quote_url_or none = codes "https://as.privasys.org/verify-quote"
verify_quote_url_or (some url) = url

-- `STATUS_COLOR[status] ?? 'inherit'`, for the four statuses.
abbrev pub status_color : Text → Text
status_color status =
    if same status (codes "verified")
    then codes "#059669"
    else if same status (codes "failed")
    then codes "#dc2626"
    else if same status (codes "unavailable")
    then codes "#d97706"
    else codes "inherit"

abbrev pub shield_icon : {C : Type 0} → Bool → Node (Action C)
shield_icon wide = icon (icon_size wide) (
    node (path_shape "M12 22s8-4 8-10V5l-8-3-8 3v7c0 6 8 10 8 10z")
      (only (path_shape "m9 12 2 2 4-4")))

abbrev pub close_attributes : List (Text × Text)
close_attributes =
    attribute "type" "button"
    ∷ attribute "className" "pv-att-close"
    ∷ attribute "aria-label" "Close"
    ∷ []

abbrev pub close_button : {C : Type 0} → Node (Action C)
close_button = clickable "button" close_attributes close_panel (only (words (codes "×")))

abbrev pub title : {C : Type 0} → Node (Action C)
title =
    plain "h1" (attribute "className" "pv-att-title" ∷ [])
      (only (words (codes "Secure Hardware Attestation")))

abbrev pub panel_head : {C : Type 0} → Node (Action C)
panel_head = plain "div" (attribute "className" "pv-att-head" ∷ []) (node title (only close_button))

abbrev pub panel_sub : {C : Type 0} → Node (Action C)
panel_sub = plain "p" (attribute "className" "pv-att-sub" ∷ []) (
    only (
      words (
        text (
          "Live attestation of the harness enclave that runs your agent. "
          ∷ "Verify it yourself — you don't have to trust the operator." ∷ []))))

abbrev pub note : {C : Type 0} → String → Node (Action C)
note s = plain "div" [] (only (words (codes s)))

abbrev pub error_line : {C : Type 0} → Text → Node (Action C)
error_line error =
    plain "div" (attribute "style" "color: #dc2626; margin-bottom: 12px" ∷ []) (only (words error))

abbrev pub retry_attributes : List (Text × Text)
retry_attributes =
    attribute "type" "button"
    ∷ attribute "className" "pv-row"
    ∷ attribute "style" "width: auto"
    ∷ []

abbrev pub retry_button : {C : Type 0} → Node (Action C)
retry_button = clickable "button" retry_attributes retry (only (words (codes "Retry")))

abbrev pub failure : {C : Type 0} → Text → Node (Action C)
failure error = plain "div" [] (node (error_line error) (only retry_button))

abbrev pub without_result : {C : Type 0} → Option Text → Node (Action C)
without_result (some error) = failure error
without_result none = note "Verifying the enclave…"

abbrev pub row_attributes : (wide : Bool) (status : Text) → List (Text × Text)
row_attributes wide status =
    attribute "type" "button"
    ∷ attribute "className" (row_class wide)
    ∷ (codes "style", codes "color: " ++ status_color status)
    ∷ attribute "title" "Secure Hardware Attestation — verify what you are connected to"
    ∷ attribute "aria-label" "Secure Hardware Attestation"
    ∷ []

module _ {C : Type 0} (badge view : Node C) where
  abbrev label : Bool → Nodes (Action C)
  label true = only (
      plain "span"
        (attribute "style" "display: inline-flex; align-items: center; gap: 6px; min-width: 0" ∷ [])
        (node
          (plain "span"
            (attribute "style" "white-space: nowrap; overflow: hidden; text-overflow: ellipsis"
              ∷ [])
            (only (words (codes "Secure Hardware Attestation"))))
          (only (lift badge))))
  label false = no_nodes

  abbrev pub row_nodes : Bool → Nodes (Action C)
  row_nodes wide = node (shield_icon wide) (label wide)

  abbrev pub row_button : (wide : Bool) (status : Text) → Node (Action C)
  row_button wide status =
      clickable "button" (row_attributes wide status) open_panel (row_nodes wide)

  -- What the panel shows below its head.
  abbrev pub panel_body : (attest_url : Text) → Attested → Node (Action C)
  panel_body [] s = note "Attestation is not configured for this instance."
  panel_body (c ∷ url) s = if s.has_result then lift view else without_result s.error

  abbrev pub panel_parts : (attest_url : Text) → Attested → Nodes (Action C)
  panel_parts attest_url s = node panel_head (node panel_sub (only (panel_body attest_url s)))

  abbrev pub panel : (attest_url : Text) → Attested → Node (Action C)
  panel attest_url s =
      clickable "div"
        (attribute "className" "pv-att-panel pv-att-scope"
          ∷ attribute "role" "dialog"
          ∷ attribute "aria-label" "Secure Hardware Attestation"
          ∷ [])
        stay_inside (panel_parts attest_url s)

  abbrev overlay : Bool → (attest_url : Text) → Attested → Nodes (Action C)
  overlay true attest_url s = only (
      clickable "div" (attribute "className" "pv-att-overlay" ∷ []) close_panel
        (only (panel attest_url s)))
  overlay false attest_url s = no_nodes

  -- What `PrivasysAttestationRow` renders.
  unfoldable pub attestation_row :
      (wide is_open : Bool) (status attest_url : Text) → Attested → Nodes (Action C)
  attestation_row wide is_open status attest_url s =
      node (row_button wide status) (overlay is_open attest_url s)

-- What a handler does to `open`.
abbrev pub settle : {C : Type 0} → List (Action C) → Bool → Bool
settle [] is_open = is_open
settle (open_panel ∷ actions) is_open = settle actions true
settle (close_panel ∷ actions) is_open = settle actions false
settle (_ ∷ actions) is_open = settle actions is_open

-- Which handlers stop the event: the panel's own, and those of the view that do.
abbrev pub stops : {C : Type 0} → (C → Bool) → Action C → Bool
stops view_stops stay_inside = true
stops view_stops (of_view call) = view_stops call
stops view_stops _ = false
