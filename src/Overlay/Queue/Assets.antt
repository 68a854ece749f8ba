-- ===== src/Overlay/Queue/Assets.antt =====
-- web/apply-overlay.mjs, sections 1 and 3: the new and replaced files.
use attested_harness.Common.{List, [], ◌∷◌, ◌++◌, Text, codes, for_each}
use attested_harness.Overlay.{Op, copy}

-- The gated boot, the shell with its assets, and the brand sources.
abbrev pub asset_copies : List Op
asset_copies =
    copy (codes "apps/web/src/main.ts") (codes "overlay/apps-web/main.ts")
    ∷ copy (codes "apps/web/index.html") (codes "overlay/apps-web/index.html")
    ∷ copy (codes "apps/web/public/privasys/privasys-shell.js") (codes "privasys-shell.js")
    ∷ copy (codes "apps/web/public/privasys/privasys-shell.css") (codes "privasys-shell.css")
    ∷ copy (codes "apps/web/public/privasys/privasys-auth-client.iife.js")
        (codes "vendor/privasys-auth-client.iife.js")
    ∷ copy (codes "apps/web/public/privasys/privasys-logo.mini.svg")
        (codes "vendor/privasys-logo.mini.svg")
    ∷ copy (codes "apps/web/public/privasys/privasys-harness-logo.svg")
        (codes "vendor/privasys-harness-logo.svg")
    ∷ copy (codes "packages/client/ui-primitives/src/FishLogo.tsx")
        (codes "overlay/brand/FishLogo.tsx")
    ∷ copy (codes "packages/client/ui-primitives/src/BrandWordmark.tsx")
        (codes "overlay/brand/BrandWordmark.tsx")
    ∷ copy (codes "packages/client/ui-brand-official/src/client/index.ts")
        (codes "overlay/brand/index.ts")
    ∷ copy (codes "packages/client/ui-brand-official/src/client/PrivasysRows.tsx")
        (codes "overlay/brand/PrivasysRows.tsx")
    ∷ copy (codes "apps/web/public/favicon.svg") (codes "vendor/privasys-logo.mini.svg")
    ∷ []

abbrev view_copies_of : Text → List Op
view_copies_of rel =
    copy (codes "packages/client/ui-brand-official/src/client/attestation-view/" ++ rel)
      (codes "vendor/attestation-view/" ++ rel)
    ∷ copy (codes "packages/client/ui-trajectory/src/client/attestation-view/" ++ rel)
        (codes "vendor/attestation-view/" ++ rel)
    ∷ []

-- The shared attestation view, copied into both packages that render it.
abbrev pub view_copies : List Op
view_copies = for_each view_copies_of (
    codes "index.ts"
    ∷ codes "types.ts"
    ∷ codes "use-attestation.ts"
    ∷ codes "components/attestation-result-view.tsx"
    ∷ codes "components/composite-attestation-view.tsx"
    ∷ codes "components/attestation-connect.tsx"
    ∷ codes "components/badge.tsx"
    ∷ codes "components/field-row.tsx"
    ∷ codes "internal/use-copy.ts"
    ∷ [])

-- The sidebar row and the stylesheet of the shared view.
abbrev pub row_copies : List Op
row_copies =
    copy (codes "packages/client/ui-brand-official/src/client/PrivasysAttestation.tsx")
      (codes "overlay/brand/PrivasysAttestation.tsx")
    ∷ copy (codes "apps/web/public/privasys/privasys-attestation.css")
        (codes "vendor/privasys-attestation.css")
    ∷ []
