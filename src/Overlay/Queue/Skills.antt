-- ===== src/Overlay/Queue/Skills.antt =====
-- web/apply-overlay.mjs, section 2g (e): the skills that a preset discovers.
use attested_harness.Common.{List, [], ◌∷◌, ◌++◌, Text, codes, text, for_each}
use attested_harness.Overlay.{Op, patch}

-- The skill row as upstream has it.
abbrev pub skill_row_stock : Text
skill_row_stock = text (
    "- id: skill-filesystem\n" ∷ "  name: '@deepseek-ai/dsh-skill-filesystem'\n" ∷ "\n"
    ∷ "- id: tool-skill" ∷ [])

-- The skill row scoped to the directory of the deployment.
abbrev pub skill_row_privasys : Text
skill_row_privasys = text (
    "- id: skill-filesystem\n" ∷ "  name: '@deepseek-ai/dsh-skill-filesystem'\n" ∷ "  config:\n"
    ∷ "    # Privasys: skills come ONLY from the deployment-owned directory on the\n"
    ∷ "    # encrypted volume — never the dsh checkout's own development skills.\n"
    ∷ "    includeDefaultRoots: false\n" ∷ "    customSkillDirs:\n" ∷ "      - /data/skills\n"
    ∷ "    watch: false\n" ∷ "\n" ∷ "- id: tool-skill" ∷ [])

abbrev scope_skills_of : Text → List Op
scope_skills_of preset =
    patch (codes "packages/preset/agent-presets/presets/" ++ (preset ++ codes "/agent.cordis.yml"))
      (record {
        label = codes "preset " ++ (preset ++ codes " skill scoping");
        find = skill_row_stock;
        replace = skill_row_privasys;
      }
        ∷ [])
    ∷ []

-- Two presets find skills in the directory of the deployment only.
abbrev pub scope_skills : List Op
scope_skills = for_each scope_skills_of (codes "standard" ∷ codes "ptc" ∷ [])

-- And so does the third.
abbrev pub scope_cordis_skills : Op
scope_cordis_skills =
    patch (codes "packages/preset/agent-presets/presets/cordis/agent.cordis.yml") (
      record {
        label = codes "preset cordis skill scoping";
        find = text (
            "- id: skill-filesystem\n" ∷ "  name: '@deepseek-ai/dsh-skill-filesystem'\n"
            ∷ "  config:\n" ∷ "    customSkillDirs:\n"
            ∷ "      - !!js \"process.getBuiltinModule('node:url').fileURLToPath(new "
            ∷ "URL('skills/', baseUrl))\"" ∷ []);
        replace = text (
            "- id: skill-filesystem\n" ∷ "  name: '@deepseek-ai/dsh-skill-filesystem'\n"
            ∷ "  config:\n" ∷ "    includeDefaultRoots: false\n" ∷ "    customSkillDirs:\n"
            ∷ "      - /data/skills\n" ∷ "    watch: false" ∷ []);
      }
      ∷ [])
