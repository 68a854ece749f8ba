-- ===== src/Bundle.antt =====
-- web/gen-bundle.mjs: the allow-list bundle made of the upstream one by dropping rows.
pub mod Rows
pub mod Parts
pub mod Spaces
pub mod Reread
pub mod Content
pub mod Generate
pub mod Outcome
pub mod Tests
use attested_harness.Common.{
  trim_end, ℕ, zero, suc, Bool, true, false, not, ◌&&◌, ◌||◌, Option, none, some, List, [], ◌∷◌,
  ◌++◌, map, Text, codes, text, same, starts_with, strip_prefix, split, join, is_space, filter, any,
  all, if◌then◌else◌,
}

-- The rows that the deployment does not admit.
abbrev pub drop_ids : List Text
drop_ids =
    codes "web"
    ∷ codes "web-search-deepseek"
    ∷ codes "web-fetch-http"
    ∷ codes "tool-web"
    ∷ codes "llm-pi-ai"
    ∷ codes "session-log-deepseek"
    ∷ codes "plugin-package-inventory-deepseek"
    ∷ codes "session-telemetry-otel"
    ∷ codes "tool-result-pruner"
    ∷ codes "tool-pwsh"
    ∷ codes "pwsh-sandbox"
    ∷ []

-- `set.has(id)` and `ids.includes(id)`.
abbrev pub has : List Text → Text → Bool
has ids id = any (λ i. same i id) ids

-- The longest run at the head that is no white space: `\S+` of a match.
abbrev pub word : Text → Text
word [] = []
word (c ∷ s) = let rest = word s in if is_space c then [] else c ∷ rest

abbrev pub nonempty : Text → Option Text
nonempty [] = none
nonempty (c ∷ s) = some (c ∷ s)

abbrev pub id_after : Option Text → Option Text
id_after none = none
id_after (some rest) = nonempty (word rest)

-- `/^    - id: (\S+)/.exec(line)`: the id of the row that the line opens.
unfoldable pub row_id : Text → Option Text
row_id line = id_after (strip_prefix (codes "    - id: ") line)

-- `/^\s*$/.test(line) || /^    #/.test(line)`: a blank line or a comment.
unfoldable pub is_gap : Text → Bool
is_gap line = all is_space line || starts_with line (codes "    #")

pub record Block : Type 0 where
  pub id : Text
  pub lines : List Text

-- The variables of the loop over the lines.
pub record Scan : Type 0 where
  pub blocks : List Block
  pub pending : List Text
  pub current : Option Block

abbrev pub start : Scan
start = record { blocks = []; pending = []; current = none }

abbrev pub close : List Block → Option Block → List Block
close blocks none = blocks
close blocks (some b) = blocks ++ (b ∷ [])

abbrev body_line : List Block → List Text → Option Block → Bool → Text → Scan
body_line blocks pending none gap line = record {
  blocks = blocks;
  pending = pending ++ (line ∷ []);
  current = none;
}
body_line blocks pending (some b) true line = record {
  blocks = blocks;
  pending = pending ++ (line ∷ []);
  current = some b;
}
body_line blocks pending (some b) false line = record {
  blocks = blocks;
  pending = [];
  current = some (record b { lines = b.lines ++ (pending ++ (line ∷ [])) });
}

abbrev scan_line : Scan → Text → Option Text → Scan
scan_line s line none = body_line s.blocks s.pending s.current (is_gap line) line
scan_line s line (some id) = record {
  blocks = close s.blocks s.current;
  pending = [];
  current = some (record { id = id; lines = s.pending ++ (line ∷ []) });
}

-- One round of the loop.
unfoldable pub scan : Scan → Text → Scan
unfolding row_id is_gap
scan s line = scan_line s line (row_id line)

unfoldable pub scan_all : Scan → List Text → Scan
unfolding scan
scan_all s [] = s
scan_all s (line ∷ body) = scan_all (scan s line) body

-- The blocks of the lines behind the insert marker.
unfoldable pub rows : List Text → List Block
unfolding scan_all
rows body = let s = scan_all start body in close s.blocks s.current

-- The lines behind `- insert:`, or none where `findIndex` is -1.
unfoldable pub after_insert : List Text → Option (List Text)
after_insert [] = none
after_insert (l ∷ ls) =
    let rest = after_insert ls in if same l (codes "- insert:") then some ls else rest

pub data Failure : Type 0 where
  no_insert_block : Failure
  not_in_base : List Text → Failure

pub data Generated : Type 0 where
  written : Text → Generated
  failed : Failure → Generated

unfoldable pub missing_ids : List Block → List Text
missing_ids blocks = filter (λ id. not (has (map (λ b. b.id) blocks) id)) drop_ids

unfoldable pub kept : List Block → List Block
kept blocks = filter (λ b. not (has drop_ids b.id)) blocks

unfoldable pub row_text : Block → Text
row_text b = trim_end (join b'\n' b.lines)

-- `texts.join('\n\n')`.
unfoldable pub join_rows : List Text → Text
join_rows [] = []
join_rows (t ∷ []) = t
join_rows (t ∷ u ∷ ts) = t ++ (b'\n' ∷ b'\n' ∷ join_rows (u ∷ ts))

abbrev pub header : Text
header = text (
    "# @privasys/harness-bundle — the Privasys Privasys Harness core composition.\n" ∷ "#\n"
    ∷ "# ALLOW-LIST fork of @deepseek-ai/dsh-base (generated from the pinned dsh tree,\n"
    ∷ "# then reviewed + committed — regenerate with web/gen-bundle.mjs on a re-pin\n"
    ∷ "# and REVIEW THE DIFF). Every row here is explicitly admitted; a new upstream\n"
    ∷ "# default plugin does NOT flow into this deployment until it is added here.\n" ∷ "#\n"
    ∷ "# Rows deliberately absent (vs dsh-base):\n"
    ∷ "#   web, web-search-deepseek, web-fetch-http, tool-web  — the agent's only\n"
    ∷ "#     egress is the attested tool fleet via the egress proxy (fail closed)\n"
    ∷ "#   llm-pi-ai                — no external model providers by default\n"
    ∷ "#   session-log-deepseek     — no session-log upload to DeepSeek\n"
    ∷ "#   plugin-package-inventory-deepseek — no plugin metadata in model requests\n"
    ∷ "#   session-telemetry-otel   — no telemetry\n"
    ∷ "#   tool-result-pruner       — mid-transcript in-place rewrites bust the\n"
    ∷ "#     confidential backend's prefix cache\n"
    ∷ "#   tool-pwsh, pwsh-sandbox  — Windows-only, dead weight in a Linux enclave\n" ∷ "#\n"
    ∷ "# Deployment config (persona, time-context, model route, attested MCP tools)\n"
    ∷ "# stays in app/profile.cordis.yml — the launcher --patch layer over this.\n" ∷ "\n"
    ∷ "- insert:\n" ∷ [])

unfoldable pub render : List Block → Text
render blocks = header ++ (join_rows (map row_text (kept blocks)) ++ codes "\n")

abbrev check_rows : List Block → List Text → Generated
check_rows blocks [] = written (render blocks)
check_rows blocks (id ∷ ids) = failed (not_in_base (id ∷ ids))

abbrev generate_from : Option (List Text) → Generated
generate_from none = failed no_insert_block
generate_from (some body) = check_rows (rows body) (missing_ids (rows body))

-- The script: the text that it writes, or what it throws.
unfoldable pub generate : Text → Generated
unfolding after_insert rows missing_ids render
generate src = generate_from (after_insert (split b'\n' src))
