-- ===== src/Host.antt =====
-- What the program takes from elsewhere: the HTTP stack behind `HttpBackend`, serde_json, and
-- `join_all` of the async runtime. `W` is the state of everything outside the program.
use edgeclaw.Prelude.{ℕ, String, Option, ◌≡◌, List, [], ◌∷◌}
use edgeclaw.Types.{ContentBlock, ToolResult, AgentError, Result}
use edgeclaw.Json.{Value}

-- crates/agent-core/src/llm.rs, `HttpResponse`. A body is the text that it decodes to.
pub record HttpResponse : Type 0 where
  pub body : String
  pub headers : List (String × String)

pub data StopReason : Type 0 where
  end_turn tool_use max_tokens stop_sequence : StopReason

pub record ApiMessage : Type 0 where
  pub role : String
  pub content : List ContentBlock

pub record ApiTool : Type 0 where
  pub name : String
  pub description : String
  pub input_schema : Value

pub record ApiRequest : Type 0 where
  pub model : String
  pub max_tokens : ℕ
  pub system : String
  pub messages : List ApiMessage
  pub tools : List ApiTool

-- llm.rs, `LlmResponse`, which has the fields of the wire type `ApiResponse`.
pub record LlmResponse : Type 0 where
  pub stop_reason : StopReason
  pub content : List ContentBlock

-- An action that can fail, on the outside state.
abbrev pub Action : Type 0 → Type 0 → Type 0
Action W A = W → Result A AgentError × W

pub record Host (W : Type 0) : Type 0 where
  -- `HttpBackend::post`: URL, headers and body.
  pub post : String → List (String × String) → String → Action W HttpResponse
  -- serde_json::to_vec(&request); a failure is its text.
  pub to_vec : ApiRequest → Result String String
  -- serde_json::from_slice, as an `ApiResponse`, and as an `ApiError`, whose message it gives.
  pub parse_response : String → Option LlmResponse
  pub parse_error : String → Option String
  -- futures_util's `join_all`: the futures' results.
  pub join_all : List (W → ToolResult × W) → W → List ToolResult × W

-- Each result is what its future gives, started from some state that the others left.
abbrev pub Joined : {W : Type 0} → List (W → ToolResult × W) → List ToolResult → Type 0
Joined [] [] = Unit
Joined {W} (f ∷ fs) (r ∷ rs) = ((w : W) × (r ≡ (f w).0)) × Joined fs rs
Joined _ _ = ⊥

-- What `join_all` documents: it collects the results of all futures, in the order of the futures.
pub record JoinsInOrder (W : Type 0) (host : Host W) : Type 0 where
  pub joined : (fs : List (W → ToolResult × W)) (w : W) → Joined fs (host.join_all fs w).0
