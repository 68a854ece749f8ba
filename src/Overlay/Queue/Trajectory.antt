-- ===== src/Overlay/Queue/Trajectory.antt =====
-- web/apply-overlay.mjs, section 2f: the attestation tab of the trajectory view.
use attested_harness.Common.{List, [], ◌∷◌, codes, text}
use attested_harness.Overlay.{Op, copy, patch}

-- The tab itself.
abbrev pub tab_copies : List Op
tab_copies =
    copy (codes "packages/client/ui-trajectory/src/client/PrivasysAttestationTab.tsx")
      (codes "overlay/trajectory/PrivasysAttestationTab.tsx")
    ∷ []

-- The four edits that wire it in.
abbrev pub wire_tab : Op
wire_tab = patch (codes "packages/client/ui-trajectory/src/client/TrajectoryTable.tsx") (
    record {
      label = codes "attestation tab import";
      find = text (
          "import { useCallback, useEffect, useLayoutEffect, useMemo, useRef, "
          ∷ "useState } from 'react'" ∷ []);
      replace = text (
          "import { useCallback, useEffect, useLayoutEffect, useMemo, useRef, "
          ∷ "useState } from 'react'\n"
          ∷ "import { PrivasysAttestationTab } from './PrivasysAttestationTab.tsx'" ∷ []);
    }
    ∷ record {
      label = codes "DetailTab union attestation";
      find = text ("  | 'timing'\n" ∷ "  | 'diff'\n" ∷ "type RecordState" ∷ []);
      replace =
          text
            ("  | 'timing'\n" ∷ "  | 'diff'\n" ∷ "  | 'attestation'\n" ∷ "type RecordState" ∷ []);
    }
    ∷ record {
      label = codes "detailTabs tool branch attestation";
      find = text (
          "  return [\n" ∷ "    { id: 'overview', labelKey: 'tab.summary' },\n"
          ∷ "    ...(record.cell.inputDetail ? [{ id: 'input', labelKey: 'tab.payload' "
          ∷ "} as const] : []),\n"
          ∷ "    ...(record.cell.outputDetail ? [{ id: 'output', labelKey: "
          ∷ "'tab.result' } as const] : []),\n" ∷ "    { id: 'schema', labelKey: 'tab.schema' },\n"
          ∷ "    { id: 'timing', labelKey: 'tab.timing' },\n" ∷ "  ]" ∷ []);
      replace = text (
          "  return [\n" ∷ "    { id: 'overview', labelKey: 'tab.summary' },\n"
          ∷ "    ...(record.cell.inputDetail ? [{ id: 'input', labelKey: 'tab.payload' "
          ∷ "} as const] : []),\n"
          ∷ "    ...(record.cell.outputDetail ? [{ id: 'output', labelKey: "
          ∷ "'tab.result' } as const] : []),\n" ∷ "    { id: 'schema', labelKey: 'tab.schema' },\n"
          ∷ "    { id: 'timing', labelKey: 'tab.timing' },\n"
          ∷ "    { id: 'attestation', labelKey: 'tab.attestation' },\n" ∷ "  ]" ∷ []);
    }
    ∷ record {
      label = codes "attestation tab panel";
      find = text (
          "            {!promptSelected && selected !== undefined && activeTab === "
          ∷ "'timing' && (\n" ∷ "              <RecordTiming record={selected} t={t} />\n"
          ∷ "            )}" ∷ []);
      replace = text (
          "            {!promptSelected && selected !== undefined && activeTab === "
          ∷ "'timing' && (\n" ∷ "              <RecordTiming record={selected} t={t} />\n"
          ∷ "            )}\n"
          ∷ "            {!promptSelected && selected !== undefined && activeTab === "
          ∷ "'attestation' && (\n"
          ∷ "              <PrivasysAttestationTab toolWireName={selected.cell.text} />\n"
          ∷ "            )}" ∷ []);
    }
    ∷ [])

-- Its name in both dictionaries.
abbrev pub name_tab : Op
name_tab = patch (codes "packages/client/ui-trajectory/src/client/locales.ts") (
    record {
      label = codes "zh tab.attestation";
      find = codes "  'tab.timing': '计时',";
      replace = text ("  'tab.timing': '计时',\n" ∷ "  'tab.attestation': '远程证明'," ∷ []);
    }
    ∷ record {
      label = codes "en tab.attestation";
      find = codes "  'tab.timing': 'Timing',";
      replace = text ("  'tab.timing': 'Timing',\n" ∷ "  'tab.attestation': 'Attestation'," ∷ []);
    }
    ∷ [])
