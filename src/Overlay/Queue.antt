-- ===== src/Overlay/Queue.antt =====
-- web/apply-overlay.mjs: the statements of the script, in its order.
mod Assets
mod Connection
mod Presets
mod Skills
mod Llm
mod Interface
mod Trajectory
pub mod Laws
use attested_harness.Common.{List, [], ◌∷◌, ◌++◌}
use attested_harness.Overlay.{Op}
pub use Assets.{asset_copies, view_copies, row_copies}
pub use Connection.{accept_binary_frames, defer_launch_token, drop_fixture_transport}
pub use Presets.{swap_web_tool, rebrand_persona, rebrand_cordis_persona, tool_web_block}
pub use Skills.{scope_skills, scope_cordis_skills}
pub use Llm.{
  declare_cache_salt, register_cache_salt, read_reasoning, declare_reasoning, rebrand_provider,
}
pub use Interface.{
  title_mcp_cards, replace_headline, drop_onboarding, rename_sandbox, rename_source,
}
pub use Trajectory.{tab_copies, wire_tab, name_tab}

-- The whole script, from its first `put` to its last `edit`.
unfoldable pub overlay_queue : List Op
overlay_queue =
    asset_copies
    ++ (accept_binary_frames ∷ defer_launch_token ∷ [])
    ++ swap_web_tool
    ++ (title_mcp_cards ∷ declare_cache_salt ∷ register_cache_salt ∷ [])
    ++ rebrand_persona
    ++ (rebrand_cordis_persona ∷ read_reasoning ∷ declare_reasoning ∷ replace_headline ∷ [])
    ++ tab_copies
    ++ (wire_tab ∷ name_tab ∷ [])
    ++ view_copies
    ++ row_copies
    ++ (drop_onboarding ∷ drop_fixture_transport ∷ rename_sandbox ∷ rename_source ∷ rebrand_provider
        ∷ [])
    ++ scope_skills
    ++ (scope_cordis_skills ∷ [])
