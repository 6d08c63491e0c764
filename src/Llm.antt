-- ===== src/Llm.antt =====
-- crates/agent-core/src/llm.rs: `LlmClient::send_message`.
use edgeclaw.Prelude.{ℕ, String, none, some, List, [], ◌∷◌, map}
use edgeclaw.Prelude.Text.{◌<>◌}
use edgeclaw.Types.{
  Role, user, assistant, Message, ToolDefinition, AgentError, llm_request_failed,
  llm_response_parse, serialization, Result, ok, err,
}
use edgeclaw.Host.{Host, HttpResponse, ApiRequest, LlmResponse, Action}

pub record LlmConfig : Type 0 where
  pub api_key : String
  pub model : String
  pub base_url : String
  pub max_tokens : ℕ

-- `LlmConfig::default`.
abbrev pub default_config : LlmConfig
default_config = record {
  api_key = "";
  model = "claude-sonnet-4-20250514";
  base_url = "https://api.anthropic.com";
  max_tokens = 4096;
}

abbrev pub role_name : Role → String
role_name user = "user"
role_name assistant = "assistant"

unfoldable pub api_request : LlmConfig → String → List Message → List ToolDefinition → ApiRequest
api_request config system messages tools = record {
  model = config.model;
  max_tokens = config.max_tokens;
  system = system;
  messages = map (λ m. record { role = role_name m.role; content = m.content }) messages;
  tools =
      map
        (λ t. record { name = t.name; description = t.description; input_schema = t.input_schema })
        tools;
}

abbrev pub api_headers : LlmConfig → List (String × String)
api_headers config =
    ("content-type", "application/json")
    ∷ ("x-api-key", config.api_key)
    ∷ ("anthropic-version", "2023-06-01")
    ∷ []

module _ {W : Type 0} (host : Host W) where
  -- The body is read as an answer first, then as an error.
  unfoldable pub read_response : String → Result LlmResponse AgentError
  read_response body = elim (host.parse_response body) [
    | some response ↦ ok response
    | none ↦ elim (host.parse_error body) [
      | some message ↦ err (llm_request_failed message)
      | none ↦ err (llm_response_parse body)
    ]
  ]

  unfoldable pub receive : Result HttpResponse AgentError × W → Result LlmResponse AgentError × W
  unfolding read_response
  receive (ok response, w) = (read_response response.body, w)
  receive (err e, w) = (err e, w)

  unfoldable pub send_message :
      LlmConfig → String → List Message → List ToolDefinition → Action W LlmResponse
  unfolding receive api_request
  send_message config system messages tools w =
      elim (host.to_vec (api_request config system messages tools)) [
        | ok body ↦
            receive (host.post (config.base_url <> "/v1/messages") (api_headers config) body w)
        | err e ↦ (err (serialization e), w)
      ]
