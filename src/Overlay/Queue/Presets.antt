-- ===== src/Overlay/Queue/Presets.antt =====
-- web/apply-overlay.mjs, sections 2c, 2e and 2g (e): the agent presets.
use attested_harness.Common.{List, [], ◌∷◌, ◌++◌, Text, codes, text, for_each}
use attested_harness.Overlay.{Op, patch}

-- The row of the built-in web tool.
abbrev pub tool_web_block : Text
tool_web_block = text (
    "# The `web` service and its search provider stay in the host composition; " ∷ "only\n"
    ∷ "# the model-facing tool is per-session.\n" ∷ "- id: tool-web\n"
    ∷ "  name: '@deepseek-ai/dsh-tool-web'\n" ∷ "  config:\n" ∷ "    fetch: true\n"
    ∷ "    searchTimeoutMs: 60000\n" ∷ [])

-- One row of the attested fleet.
abbrev mcp_fleet_row : (id server : Text) → Text
mcp_fleet_row id server =
    codes "- id: "
    ++ (id
        ++ (text (
              "\n" ∷ "  name: '@deepseek-ai/dsh-mcp-client'\n" ∷ "  config:\n"
              ∷ "    transport: streamable-http\n" ∷ "    serverName: " ∷ [])
            ++ (server
                ++ (text ("\n" ∷ "    url: http://127.0.0.1:9411/tool/" ∷ [])
                    ++ (server
                        ++ text (
                            "/mcp\n" ∷ "    headers:\n"
                            ∷ "      authorization: !!js \"'Bearer ' + (process.env.PRIVASYS_BEARER || '')\"\n"
                            ∷ "    failOnStartupError: false\n" ∷ []))))))

-- The rows of the attested fleet.
abbrev pub mcp_fleet_rows : Text
mcp_fleet_rows =
    text (
      "# Privasys: the built-in web tool is replaced by the attested MCP fleet —\n"
      ∷ "# each row is one attested platform tool app behind the in-TCB egress proxy\n"
      ∷ "# (mutual RA-TLS, DepSet-gated). failOnStartupError: false so an " ∷ "unreachable\n"
      ∷ "# tool app degrades that tool, never the whole preset.\n" ∷ [])
    ++ (mcp_fleet_row (codes "web-search") (codes "web_search")
        ++ (codes "\n"
            ++ (mcp_fleet_row (codes "web-reader") (codes "web_reader")
                ++ (codes "\n" ++ mcp_fleet_row (codes "drive") (codes "drive")))))

abbrev swap_web_tool_of : Text → List Op
swap_web_tool_of preset =
    patch (codes "packages/preset/agent-presets/presets/" ++ (preset ++ codes "/agent.cordis.yml"))
      (record {
        label = codes "preset " ++ (preset ++ codes " attested-fleet swap");
        find = tool_web_block;
        replace = mcp_fleet_rows;
      }
        ∷ [])
    ∷ []

-- Every preset mounts the attested fleet in place of the web tool.
abbrev pub swap_web_tool : List Op
swap_web_tool = for_each swap_web_tool_of (codes "standard" ∷ codes "ptc" ∷ codes "cordis" ∷ [])

-- The persona text.
abbrev pub privasys_persona : Text
privasys_persona = text (
    "      You are a coding agent of the Privasys Harness, powered by the "
    ∷ "{{model}} model running in a hardware-attested confidential enclave. Your "
    ∷ "working directory is {{cwd}}." ∷ [])

abbrev rebrand_persona_of : Text → List Op
rebrand_persona_of preset =
    patch (codes "packages/preset/agent-presets/presets/" ++ (preset ++ codes "/agent.cordis.yml"))
      (record {
        label = codes "preset " ++ (preset ++ codes " persona rebrand");
        find = text (
            "      You are a coding agent powered by the {{model}} model. Your working "
            ∷ "directory is {{cwd}}." ∷ []);
        replace = privasys_persona;
      }
        ∷ [])
    ∷ []

-- The persona of two presets.
abbrev pub rebrand_persona : List Op
rebrand_persona = for_each rebrand_persona_of (codes "standard" ∷ codes "ptc" ∷ [])

-- The persona of the third preset.
abbrev pub rebrand_cordis_persona : Op
rebrand_cordis_persona =
    patch (codes "packages/preset/agent-presets/presets/cordis/agent.cordis.yml") (
      record {
        label = codes "preset cordis persona rebrand";
        find = text (
            "      You are a coding agent powered by the {{model}} model, running on "
            ∷ "the DeepSeek Harness. Your working directory is {{cwd}}." ∷ []);
        replace = privasys_persona;
      }
      ∷ [])
