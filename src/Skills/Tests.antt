-- ===== src/Skills/Tests.antt =====
-- A registry of two skills, a registration, and a name that cannot be called.
use edgeclaw.Prelude.{ℕ, String, ◌≡◌, refl, none, some, [], ◌∷◌, All}
use edgeclaw.Prelude.Int.{pos}
use edgeclaw.Prelude.Text.{contains, strip_prefix}
use edgeclaw.Json.{null}
use edgeclaw.Types.{ToolCall, ToolDefinition}
use edgeclaw.Fixtures.{host, codec, tools_json, tools_json-reads, world}
use edgeclaw.Turn.{World}
use edgeclaw.Mcp.{new_client}
use edgeclaw.Skills.{SkillRegistry, RegisteredSkill, all_tools, dispatch, register}
use edgeclaw.Skills.Routing.{
  Routed, Offered, answered_first, all_tools-dispatch, dispatch-underscore,
}
use edgeclaw.Skills.Rows.{Sound, register-Sound}

abbrev tool : String → ToolDefinition
tool name = record { name = name; description = ""; input_schema = null }

abbrev skill : String → RegisteredSkill
skill name = record {
  name = name;
  tools = tool "search" ∷ tool "read" ∷ [];
  client = new_client name [];
}

abbrev registry : SkillRegistry
registry = skill "github" ∷ skill "my_mail" ∷ []

all_tools-dispatch_example :
    All (Routed {W = World ℕ} host codec registry) (all_tools registry)
    × All (λ s. All (Offered s (all_tools registry)) s.tools) registry
unfolding contains strip_prefix
all_tools-dispatch_example =
    all_tools-dispatch host codec registry (tt, ((refl, tt), tt)) (refl, (refl, tt))

abbrev lost : ToolCall
lost = record { id = "t1"; name = "git___search"; input = null }

dispatch-underscore_example :
    dispatch host codec lost (skill "git_" ∷ skill "git" ∷ []) world
    ≡ answered_first host codec "git" "_search" lost
        (skill "git_" ∷ skill "git" ∷ [])
        world
        (some (skill "git_" ∷ [], skill "git", []))
unfolding contains strip_prefix
dispatch-underscore_example =
    dispatch-underscore host codec "git" "search" lost (skill "git_" ∷ skill "git" ∷ []) world refl
      refl

register-Sound_example :
    Sound host codec tools_json tools_json-reads "github" "http://localhost"
      (pos 1)
      none
      none
      registry
      (register host codec tools_json "github" "http://localhost" (pos 1) none none registry world)
register-Sound_example =
    register-Sound host codec tools_json tools_json-reads "github" "http://localhost" (pos 1) none
      none registry world
