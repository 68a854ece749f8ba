-- ===== src/Overlay/Queue/Llm.antt =====
-- web/apply-overlay.mjs, sections 2d, 2e2 and 2g (f): the model side.
use attested_harness.Common.{[], ◌∷◌, codes, text}
use attested_harness.Overlay.{Op, patch}

-- The salt joins the extension map.
abbrev pub declare_cache_salt : Op
declare_cache_salt = patch (codes "packages/llm/deepseek-llm-api-extensions/src/types.ts") (
    record {
      label = codes "extension map cache_salt merge";
      find = codes "export interface DeepSeekLlmApiExtensionMap {}";
      replace = text (
          "export interface DeepSeekLlmApiExtensionMap {\n"
          ∷ "  /** Privasys: per-session prefix-cache partition salt (vLLM " ∷ "cache_salt). */\n"
          ∷ "  cache_salt: string\n" ∷ "}" ∷ []);
    }
    ∷ [])

-- The salt is the session id.
abbrev pub register_cache_salt : Op
register_cache_salt = patch (codes "packages/llm/deepseek-llm-api-extensions/src/index.ts") (
    record {
      label = codes "registry constructor cache_salt registration";
      find = text (
          "  constructor(ctx: Context) {\n" ∷ "    super(ctx, 'deepseekLlmApiExtensions')\n" ∷ "  }"
          ∷ []);
      replace = text (
          "  constructor(ctx: Context) {\n" ∷ "    super(ctx, 'deepseekLlmApiExtensions')\n"
          ∷ "    // Privasys: partition the confidential backend's prefix cache per\n"
          ∷ "    // session (vLLM cache_salt) so sessions never share cached prefixes.\n"
          ∷ "    this.register('cache_salt', {\n"
          ∷ "      prepare: request => request.sessionId === undefined\n" ∷ "        ? undefined\n"
          ∷ "        : { value: request.sessionId },\n" ∷ "    })\n" ∷ "  }" ∷ []);
    }
    ∷ [])

-- The reasoning delta is read under either name.
abbrev pub read_reasoning : Op
read_reasoning = patch (codes "packages/llm/llm-deepseek/src/translate.ts") (
    record {
      label = codes "reasoning delta field fallback";
      find = codes "      const reasoning = delta?.reasoning_content";
      replace = codes "      const reasoning = delta?.reasoning_content ?? delta?.reasoning";
    }
    ∷ [])

-- Its type.
abbrev pub declare_reasoning : Op
declare_reasoning = patch (codes "packages/llm/llm-deepseek/src/types.ts") (
    record {
      label = codes "WireDelta reasoning field";
      find =
          text
            ("  reasoning_content?: string | null\n" ∷ "  tool_calls?: WireToolCallDelta[]" ∷ []);
      replace = text (
          "  reasoning_content?: string | null\n"
          ∷ "  /** vLLM >= 0.28.0 emits the reasoning channel under this name. */\n"
          ∷ "  reasoning?: string | null\n" ∷ "  tool_calls?: WireToolCallDelta[]" ∷ []);
    }
    ∷ [])

-- The provider card.
abbrev pub rebrand_provider : Op
rebrand_provider = patch (codes "packages/llm/llm-deepseek/src/index.ts") (
    record {
      label = codes "provider card rebrand";
      find = text (
          "    { provider: PROVIDER, displayName: 'DeepSeek', settingsNs: NS, "
          ∷ "settingsPath: [] }," ∷ []);
      replace = text (
          "    // Privasys: the settings card names the attested model behind this " ∷ "route.\n"
          ∷ "    { provider: PROVIDER, displayName: 'Privasys Qwen 3.6', settingsNs: "
          ∷ "NS, settingsPath: [] }," ∷ []);
    }
    ∷ [])
