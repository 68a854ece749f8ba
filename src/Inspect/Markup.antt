-- ===== src/Inspect/Markup.antt =====
-- web/overlay/trajectory/PrivasysAttestationTab.tsx: the fetch of the pin summary, and the nodes that
-- the tab renders. The shared view and its badge are parameters.
use attested_harness.Common.{
  text, String, ◌≡◌, refl, Bool, true, false, Option, none, some, List, [], ◌∷◌, if◌then◌else◌,
  Text, codes, ◌↔◌, ◌⊎◌, inl, inr,
}
use attested_harness.Page.{Node, Nodes, words, node}
use attested_harness.Sidebar.{attribute, plain, clickable, only}
use attested_harness.Sidebar.Report.{Action, Attested, retry, lift}
use attested_harness.Inspect.{
  is_unreadable, Dep, Pins, not_yet, unreadable, summary, View, local_note, report, render_threw,
}

-- How the fetch ends: it or the reading of its JSON fails; or there is a response, with its `ok` and
-- its document, which may be null and may have no dependencies.
pub data Fetched : Type 0 where
  fails : Fetched
  responds : (ok : Bool) (document : Option (Option (List Dep))) → Fetched

abbrev pins_of : Option (Option (List Dep)) → Pins
pins_of none = unreadable
pins_of (some dependencies) = summary dependencies

-- The state `pins` behind the fetch, for a tab that is still on the page or not.
unfoldable pub take_pins : (current : Bool) → Fetched → Pins → Pins
take_pins false fetched pins = pins
take_pins true fails pins = unreadable
take_pins true (responds true document) pins = pins_of document
take_pins true (responds false document) pins = not_yet

abbrev strong : {C : Type 0} → Text → Node (Action C)
strong s = plain "strong" [] (only (words s))

abbrev paragraph : {C : Type 0} → String → Text → Node (Action C)
paragraph style s = plain "p" (attribute "style" style ∷ []) (only (words s))

abbrev pub local_node : {C : Type 0} → Text → Node (Action C)
local_node wire = plain "div" (attribute "style" "font-size: 13px; padding: 4px 0" ∷ []) (
    only (
      plain "p" [] (
        node (strong wire) (
          node
            (words (
              text (
                " runs inside the harness enclave itself — no "
                ∷ "data leaves the attested boundary for this call. The enclave's full live "
                ∷ "report is behind " ∷ [])))
            (node (strong (codes "Secure Hardware Attestation"))
              (only (words (codes " in the sidebar."))))))))

abbrev pin_note : {C : Type 0} → Bool → Nodes (Action C) → Nodes (Action C)
pin_note true below =
    node
      (paragraph "opacity: 0.7"
        (codes "Could not read the harness pin summary; the live report below stands alone."))
      below
pin_note false below = below

abbrev failed_report : {C : Type 0} → Text → Node (Action C)
failed_report error = plain "div" [] (
    node
      (plain "div" (attribute "style" "color: #dc2626; margin-bottom: 8px" ∷ [])
        (only (words error)))
      (only
        (clickable "button" (attribute "type" "button" ∷ []) retry (only (words (codes "Retry"))))))

abbrev unfinished : {C : Type 0} → Option Text → Node (Action C)
unfinished (some error) = failed_report error
unfinished none = paragraph "opacity: 0.7" (codes "Verifying the tool enclave…")

module _ {C : Type 0} (badge view : Node C) (s : Attested) where
  abbrev report_node : (label : Text) → (unpinned : Bool) → Node (Action C)
  report_node label unpinned =
      plain "div"
        (attribute "className" "pv-att-scope"
          ∷ attribute "style" "font-size: 13px; min-width: 320px; padding: 4px 10px 14px"
          ∷ [])
        (node
          (plain "div"
            (attribute "style" "display: flex; align-items: center; gap: 8px; margin-bottom: 8px"
              ∷ [])
            (node (strong label) (only (lift badge))))
          (node
            (paragraph "opacity: 0.75; margin-bottom: 12px" (
              text (
                "This call was served by a separately attested enclave, dialled over "
                ∷ "mutual RA-TLS; the egress proxy refuses any peer that does not match the "
                ∷ "identity pinned in the harness's sealed dependency set (fail closed). "
                ∷ "The report below is the tool enclave's LIVE attestation; the pinned "
                ∷ "code hash is checked against it." ∷ [])))
            (pin_note unpinned (only (if s.has_result then lift view else unfinished s.error)))))

  -- The nodes of the tab; there are none where rendering threw.
  unfoldable pub tab_node : View → Option (Node (Action C))
  tab_node (local_note wire) = some (local_node wire)
  tab_node (report label url expected unpinned) = some (report_node label unpinned)
  tab_node render_threw = none

-- The tab notes that the pin summary could not be read exactly where the fetch or its JSON failed, or
-- the document was null, and so not where the response had an error status.
pub is_unreadable-take_pins :
    (f : Fetched)
    → (is_unreadable (take_pins true f not_yet) ≡ true) ↔ ((f ≡ fails) ⊎ (f ≡ responds true none))
unfolding take_pins
is_unreadable-take_pins fails = (λ h. inl refl, λ h. refl)
is_unreadable-take_pins (responds true none) = (λ h. inr refl, λ h. refl)
is_unreadable-take_pins (responds true (some dependencies)) =
    (λ h. absurd (cc), λ (h : _ ⊎ _). elim h [ inl e ↦ cc | inr e ↦ cc ])
is_unreadable-take_pins (responds false document) =
    (λ h. absurd (cc), λ (h : _ ⊎ _). elim h [ inl e ↦ cc | inr e ↦ cc ])
