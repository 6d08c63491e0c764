-- ===== src/Executor.antt =====
-- crates/edgeclaw-server/src/builtin_executor.rs: the built-in tools first, then the skills' tools,
-- under a chain of permission policies.
use edgeclaw.Prelude.{
  String, Option, none, some, Bool, false, List, [], ◌∷◌, ◌++◌, map, str_eq, if◌then◌else◌,
}
use edgeclaw.Json.{Value}
use edgeclaw.Types.{ToolDefinition, ToolCall, ToolResult, AgentError, PermissionCheck, Result, ok}
use edgeclaw.Host.{Host}
use edgeclaw.Mcp.{Codec}
use edgeclaw.Skills.{SkillRegistry, dispatch}
use edgeclaw.Skills
use edgeclaw.Permissions.{Policy, check}

-- crates/agent-core/src/tools.rs, the trait `BuiltinTool`, as far as the executor uses it.
pub record BuiltinTool (W : Type 0) : Type 0 where
  pub definition : ToolDefinition
  pub is_concurrent_safe : Bool
  pub execute : Value → W → ToolResult × W

-- The map of the built-in tools, in the order in which it is iterated over.
pub record BuiltinExecutor (W : Type 0) : Type 0 where
  pub builtins : List (String × BuiltinTool W)
  pub policy : List Policy

abbrev pub builtin : {W : Type 0} → String → List (String × BuiltinTool W) → Option (BuiltinTool W)
builtin name [] = none
builtin name ((key, tool) ∷ tools) = if str_eq key name then some tool else builtin name tools

module _ {W : Type 0} (host : Host W) (codec : Codec) (self : BuiltinExecutor W) where
  unfoldable pub check_permission : ToolCall → PermissionCheck
  unfolding check
  check_permission tc = check self.policy tc

  unfoldable pub all_tools : SkillRegistry → List ToolDefinition
  all_tools registry = map (λ entry. entry.1.definition) self.builtins ++ Skills.all_tools registry

  unfoldable pub execute :
      ToolCall → SkillRegistry → W → Result ToolResult AgentError × SkillRegistry × W
  unfolding dispatch
  execute tc registry w = elim (builtin tc.name self.builtins) [
    | some tool ↦
        let (result, w') = tool.execute tc.input w in
        (ok (record result { tool_use_id = tc.id }), registry, w')
    | none ↦ dispatch host codec tc registry w
  ]

  unfoldable pub is_concurrent_safe : ToolCall → Bool
  is_concurrent_safe tc = elim (builtin tc.name self.builtins) [
    | some tool ↦ tool.is_concurrent_safe
    | none ↦ false
  ]
