-- ===== src/Types.antt =====
-- crates/agent-core/src/types.rs, error.rs and tools.rs: the values that the other parts exchange,
-- and fallible actions on a state.
use edgeclaw.Prelude.{ℕ, String, Option, none, some, Bool, true, false, List}
use edgeclaw.Prelude.Text.{◌<>◌, decimal}
use edgeclaw.Prelude.Int.{ℤ}
use edgeclaw.Json.{Value, get_str}

pub data Role : Type 0 where
  user assistant : Role

-- `ContentBlock::ToolResult` has the fields of the struct `ToolResult` in its order.
pub data ContentBlock : Type 0 where
  text : String → ContentBlock
  tool_use : (id name : String) → (input : Value) → ContentBlock
  tool_result : (tool_use_id content : String) → (is_error : Bool) → ContentBlock
  compact_boundary : (summary : String) → ContentBlock

pub record Message : Type 0 where
  pub role : Role
  pub content : List ContentBlock
  pub created_at : ℤ

pub record ToolDefinition : Type 0 where
  pub name : String
  pub description : String
  pub input_schema : Value

pub record ToolCall : Type 0 where
  pub id : String
  pub name : String
  pub input : Value

pub record ToolResult : Type 0 where
  pub tool_use_id : String
  pub content : String
  pub is_error : Bool

pub record AgentContext : Type 0 where
  pub system_prompt : String
  pub messages : List Message
  pub tools : List ToolDefinition

pub record AgentRunResult : Type 0 where
  pub new_messages : List Message
  pub answer : Option String
  pub pending_tool_calls : List ToolCall

-- error.rs. A serde_json error is its text.
pub data AgentError : Type 0 where
  llm_request_failed llm_response_parse unexpected_stop_reason : String → AgentError
  serialization http tool_execution_failed mcp_error skill_not_found : String → AgentError
  max_iterations_exceeded max_continuations_exceeded : ℕ → AgentError
  prompt_too_long : AgentError

-- `Display` of an error.
unfoldable pub display_error : AgentError → String
display_error (llm_request_failed s) = "LLM request failed: " <> s
display_error (llm_response_parse s) = "LLM response parse error: " <> s
display_error (max_iterations_exceeded n) = "Max iterations (" <> decimal n <> ") exceeded"
display_error (unexpected_stop_reason s) = "Unexpected stop reason: " <> s
display_error (serialization s) = "Serialization error: " <> s
display_error (http s) = "HTTP error: " <> s
display_error (tool_execution_failed s) = "Tool execution failed: " <> s
display_error (mcp_error s) = "MCP error: " <> s
display_error (skill_not_found s) = "Skill not found: " <> s
display_error prompt_too_long = "Prompt too long, compaction required"
display_error (max_continuations_exceeded n) =
    "Max continuation attempts (" <> decimal n <> ") exceeded"

-- tools.rs.
pub data PermissionCheck : Type 0 where
  allow : PermissionCheck
  deny requires_approval : (reason : String) → PermissionCheck

-- Rust's `Result`.
pub data Result {ℓ κ} (A : Type ℓ) (E : Type κ) : Type (ℓ ⊔ κ) where
  ok : A → Result A E
  err : E → Result A E

-- `ToolResult::error_for`, on the displayed error.
unfoldable pub error_for : String → String → ToolResult
error_for id e = record {
  tool_use_id = id;
  content = "Tool execution error: " <> e;
  is_error = true;
}

-- `ToolResult::ok` and `ToolResult::err`: the caller sets the id.
abbrev pub ok_result : String → ToolResult
ok_result content = record { tool_use_id = ""; content = content; is_error = false }

abbrev pub err_result : String → ToolResult
err_result content = record { tool_use_id = ""; content = content; is_error = true }

-- `ToolResult::require_str`.
unfoldable pub require_str : Value → String → Result String ToolResult
require_str input field = elim (get_str input field) [
  | none ↦ err (err_result ("Missing required field: " <> field))
  | some s ↦ ok s
]

-- `ContentBlock::from(ToolResult)`.
unfoldable pub from_tool_result : ToolResult → ContentBlock
from_tool_result r = tool_result r.tool_use_id r.content r.is_error

-- The calls that a message asks for.
unfoldable pub as_tool_call : ContentBlock → Option ToolCall
as_tool_call (tool_use id name input) = some (record { id = id; name = name; input = input })
as_tool_call _ = none

unfoldable pub as_text : ContentBlock → Option String
as_text (text t) = some t
as_text _ = none

-- `?` on a result, and `map_err`.
abbrev pub and_then {ℓ κ μ} :
    {A : Type ℓ} {B : Type κ} {E : Type μ} → Result A E → (A → Result B E) → Result B E
and_then (ok a) f = f a
and_then (err e) f = err e

abbrev pub map_err {ℓ κ μ} :
    {A : Type ℓ} {E : Type κ} {F : Type μ} → (E → F) → Result A E → Result A F
map_err f (ok a) = ok a
map_err f (err e) = err (f e)
