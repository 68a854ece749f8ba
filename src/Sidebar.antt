-- ===== src/Sidebar.antt =====
-- web/overlay/brand: the rows at the foot of the sidebar, PrivasysRows.tsx and
-- PrivasysAttestation.tsx. React's work is written out: a component is a function from its state to
-- nodes, and an effect runs behind a rendering that changed what it depends on.
pub mod UserRow
pub mod Report
pub mod Tests
use attested_harness.Common.{
  String, ℕ, Bool, true, false, List, [], ◌∷◌, ◌++◌, if◌then◌else◌, any, Text, codes, same, Option,
  none, some,
}
use attested_harness.Page.{Node, Nodes, words, element, no_nodes, node}

abbrev pub attribute : String → String → Text × Text
attribute name value = (codes name, codes value)

-- A node without handlers.
abbrev pub plain : {A : Type 0} → String → List (Text × Text) → Nodes A → Node A
plain tag attributes children = element (codes tag) attributes [] children

-- A node with `onClick`.
abbrev pub clickable : {A : Type 0} → String → List (Text × Text) → A → Nodes A → Node A
clickable tag attributes on_click children =
    element (codes tag) attributes ((codes "click", on_click) ∷ []) children

abbrev pub only : {A : Type 0} → Node A → Nodes A
only n = node n no_nodes

-- What `ShieldIcon`, `UserIcon` and `SignOutIcon` have in common.
abbrev pub icon : {A : Type 0} → String → Nodes A → Node A
icon size shapes =
    plain "svg"
      (attribute "width" size
        ∷ attribute "height" size
        ∷ attribute "viewBox" "0 0 24 24"
        ∷ attribute "fill" "none"
        ∷ attribute "stroke" "currentColor"
        ∷ attribute "strokeWidth" "2"
        ∷ attribute "strokeLinecap" "round"
        ∷ attribute "strokeLinejoin" "round"
        ∷ attribute "aria-hidden" "true"
        ∷ [])
      shapes

abbrev pub path_shape : {A : Type 0} → String → Node A
path_shape d = plain "path" (attribute "d" d ∷ []) no_nodes

-- The class of a row of the foot.
abbrev pub row_class : Bool → String
row_class true = "pv-row"
row_class false = "pv-row pv-row-narrow"

abbrev pub icon_size : Bool → String
icon_size true = "16"
icon_size false = "18"

-- `ensureRowStyles` and `ensureStyles`, on the ids of the document's style sheets.
unfoldable pub ensure_styles : (id : Text) → List Text → List Text
ensure_styles id sheets = if any (λ s. same s id) sheets then sheets else sheets ++ (id ∷ [])

abbrev pub row_style_ids : Text × Text
row_style_ids = (codes "privasys-sidebar-rows", codes "privasys-attestation-styles")

-- The components that index.ts registers.
pub data Component : Type 0 where
  official_brand_mark official_brand_name privasys_attestation_row privasys_user_row : Component

pub record Registration : Type 0 where
  pub name : Text
  pub id : Option Text
  pub component : Component

abbrev brand_mark : Text
brand_mark = codes "sidebar.brand.mark"

abbrev brand_name : Text
brand_name = codes "sidebar.brand.name"

abbrev footer_action : Text
footer_action = codes "sidebar.footer.action"

abbrev pub registrations : List Registration
registrations =
    record { name = brand_mark; id = none; component = official_brand_mark }
    ∷ record { name = brand_name; id = none; component = official_brand_name }
    ∷ record {
      name = footer_action;
      id = some (codes "privasys-attestation");
      component = privasys_attestation_row;
    }
    ∷ record {
      name = footer_action;
      id = some (codes "privasys-user");
      component = privasys_user_row;
    }
    ∷ []

-- `apply`. What a slot makes of registrations that wait for it is the host application's.
abbrev pub apply :
    (inject : Text → List Registration → List Registration) → (profile : Text) → List Registration
apply inject profile =
    if same profile (codes "official")
    then inject brand_mark (inject brand_name (inject footer_action registrations))
    else []
