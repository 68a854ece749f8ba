-- ===== src/Overlay/Queue/Interface.antt =====
-- web/apply-overlay.mjs, sections 2c, 2f0 and 2g: texts and dialogs of the interface.
use attested_harness.Common.{[], ◌∷◌, codes, text}
use attested_harness.Overlay.{Op, patch}

-- The cards of the fleet are told apart.
abbrev pub title_mcp_cards : Op
title_mcp_cards =
    patch
      (text (
        "packages/client/ui-settings-plugin-inventory/src/client/PluginInventorySett"
        ∷ "ingsTab.tsx" ∷ []))
      (record {
        label = codes "mcp-client card title by entry id";
        find = text (
            "        <strong className={css.cardTitle} "
            ∷ "title={moduleName}>{moduleShortName(moduleName)}</strong>" ∷ []);
        replace = text (
            "        <strong className={css.cardTitle} title={moduleName}>{\n"
            ∷ "          /* Privasys: mcp-client rows are distinguished by entry id "
            ∷ "(tool identity). */\n"
            ∷ "          moduleName === '@deepseek-ai/dsh-mcp-client' && entryId !== "
            ∷ "null ? entryId : moduleShortName(moduleName)\n" ∷ "        }</strong>" ∷ []);
      }
        ∷ [])

-- The headline in both dictionaries.
abbrev pub replace_headline : Op
replace_headline = patch (codes "packages/client/ui-conversation/src/client/locales.ts") (
    record {
      label = codes "zh hero headline";
      find = codes "  'hero.headline': '探索未至之境',";
      replace = codes "  'hero.headline': '你的数据。你的掌控。你的智能体。',";
    }
    ∷ record {
      label = codes "en hero headline";
      find = codes "  'hero.headline': 'Into the Unknown',";
      replace = codes "  'hero.headline': 'Your data. Your control. Your agent.',";
    }
    ∷ [])

-- The onboarding dialogs are not registered.
abbrev pub drop_onboarding : Op
drop_onboarding = patch (codes "packages/client/ui-settings-models/src/client/index.ts") (
    record {
      label = codes "onboarding dialogs removal";
      find = text (
          "  ctx.slots.inject('settings.onboarding', () => ctx.slots.register({\n"
          ∷ "    name: 'settings.onboarding',\n" ∷ "    id: 'welcome-notice',\n"
          ∷ "    order: -100,\n" ∷ "    inject: welcomeInjected,\n" ∷ "  }, WelcomeNotice))\n"
          ∷ "  ctx.slots.inject('settings.onboarding', () => ctx.slots.register({\n"
          ∷ "    name: 'settings.onboarding',\n" ∷ "    id: 'deepseek-official',\n"
          ∷ "    order: 0,\n" ∷ "    inject: deepSeekOnboardingInjected,\n"
          ∷ "  }, DeepSeekOnboardingDialog))" ∷ []);
      replace = text (
          "  // Privasys: the DeepSeek onboarding dialogs (the blocking \"Internal\n"
          ∷ "  // Testing Notice\" and the official-API-key prompt) are not registered —\n"
          ∷ "  // this deployment has its own identity and its provider is " ∷ "preconfigured.\n"
          ∷ "  void welcomeInjected\n" ∷ "  void deepSeekOnboardingInjected\n"
          ∷ "  void WelcomeNotice\n" ∷ "  void DeepSeekOnboardingDialog" ∷ []);
    }
    ∷ [])

-- The sandbox policy names the harness.
abbrev pub rename_sandbox : Op
rename_sandbox = patch (codes "packages/sandbox/sandbox-policy/src/index.ts") (
    record {
      label = codes "sandbox policy read-only string";
      find = text (
          "      return 'Current DSH file policy: read-only. Any available operation "
          ∷ "enforced by the DSH file sandbox cannot modify files in the standing mode." ∷ []);
      replace = text (
          "      return 'Current harness file policy: read-only. Any available "
          ∷ "operation enforced by the harness file sandbox cannot modify files in the "
          ∷ "standing mode." ∷ []);
    }
    ∷ record {
      label = codes "sandbox policy workspace-write string";
      find = text (
          "      return `Current DSH file policy: workspace-write. Any available "
          ∷ "operation enforced by the DSH file sandbox may modify files under the "
          ∷ "session workspace:" ∷ []);
      replace = text (
          "      return `Current harness file policy: workspace-write. Any available "
          ∷ "operation enforced by the harness file sandbox may modify files under the "
          ∷ "session workspace:" ∷ []);
    }
    ∷ record {
      label = codes "sandbox policy full-access string";
      find = text (
          "      return 'Current DSH file policy: danger-full-access. The DSH file "
          ∷ "sandbox does not restrict file modifications by available operations.'" ∷ []);
      replace = text (
          "      return 'Current harness file policy: danger-full-access. The "
          ∷ "harness file sandbox does not restrict file modifications by available "
          ∷ "operations.'" ∷ []);
    }
    ∷ [])

-- The label of the runtime context.
abbrev pub rename_source : Op
rename_source = patch (codes "packages/core/agent-loop/src/runtime-context.ts") (
    record {
      label = codes "runtime-context source label";
      find = codes "const SOURCE = '@deepseek-ai/dsh-system-prompt'";
      replace = codes "const SOURCE = 'runtime-context'";
    }
    ∷ [])
