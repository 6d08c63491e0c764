-- ===== src/Mcp.antt =====
-- crates/mcp-client/src/client.rs and protocol.rs: the client of an MCP server, whose requests are
-- JSON-RPC over HTTP.
pub mod Session
mod Tests
use edgeclaw.Prelude.{
  ℕ, ◌+◌, ◌^◌, String, Option, none, some, Bool, List, [], ◌∷◌, ◌++◌, map, if◌then◌else◌, find_map,
  unwrap_or, str_eq,
}
use Prim.Native.Nat.{◌%◌}
use edgeclaw.Prelude.Int.{ℤ, display_int}
use edgeclaw.Prelude.Text.{◌<>◌, strip_prefix, starts_with, trim, lines, eq_ignore_ascii_case, join}
use edgeclaw.Json.{Value, object, string, field, end}
use edgeclaw.Types.{
  ToolDefinition, ToolResult, AgentError, mcp_error, serialization, Result, ok, err, and_then,
  map_err,
}
use edgeclaw.Host.{Host, HttpResponse}

-- `JsonRpcRequest`, less the constant field `jsonrpc`.
pub record JsonRpcRequest : Type 0 where
  pub id : ℕ
  pub method : String
  pub params : Option Value

pub record JsonRpcError : Type 0 where
  pub code : ℤ
  pub message : String

pub record JsonRpcResponse : Type 0 where
  pub result : Option Value
  pub error : Option JsonRpcError

unfoldable pub display_rpc_error : JsonRpcError → String
display_rpc_error e = "JSON-RPC error " <> display_int e.code <> ": " <> e.message

pub record McpToolDef : Type 0 where
  pub name : String
  pub description : Option String
  pub input_schema : Option Value

-- `ToolCallResult`, whose contents are texts.
pub record ToolCallResult : Type 0 where
  pub content : List String
  pub is_error : Bool

-- What the client has serde_json do; a failure is its text.
pub record Codec : Type 0 where
  pub to_vec : JsonRpcRequest → Result String String
  pub from_str : String → Result JsonRpcResponse String
  -- from_value, as an `InitializeResult`, whose capabilities it gives, a `ToolsListResult`, whose
  -- tools it gives, and a `ToolCallResult`.
  pub read_initialize : Value → Result (Option Value) String
  pub read_tools : Value → Result (List McpToolDef) String
  pub read_call : Value → Result ToolCallResult String

-- `McpClient`, whose backend is the host's.
pub record McpClient : Type 0 where
  pub server_url : String
  pub next_id : ℕ
  pub extra_headers : List (String × String)
  pub session_id : Option String

-- `McpClient::new`.
abbrev pub new_client : String → List (String × String) → McpClient
new_client server_url extra_headers = record {
  server_url = server_url;
  next_id = 1;
  extra_headers = extra_headers;
  session_id = none;
}

-- A line of a server-sent event that has data.
unfoldable pub data_line : String → Option String
data_line line = elim (strip_prefix "data: " (trim line)) [
  | some json ↦ some json
  | none ↦ elim (strip_prefix "data:" (trim line)) [ none ↦ none | some json ↦ some (trim json) ]
]

unfoldable pub extract_json_from_response : String → String
unfolding data_line
extract_json_from_response response =
    let trimmed = trim response in
    if starts_with "{" trimmed
    then trimmed
    else unwrap_or (find_map data_line (lines trimmed)) trimmed

-- The session that a response names, by its first header of that name.
unfoldable pub session_header : String × String → Option String
session_header (k, v) = if eq_ignore_ascii_case k "mcp-session-id" then some v else none

unfoldable pub capture_session : McpClient → List (String × String) → McpClient
unfolding session_header
capture_session client headers = elim (find_map session_header headers) [
  | none ↦ client
  | some v ↦ record client { session_id = some v }
]

unfoldable pub session_headers : Option String → List (String × String)
session_headers none = []
session_headers (some sid) = ("mcp-session-id", sid) ∷ []

unfoldable pub request_headers : McpClient → List (String × String)
unfolding session_headers
request_headers client =
    ("content-type", "application/json")
    ∷ ("accept", "application/json, text/event-stream")
    ∷ (session_headers client.session_id ++ client.extra_headers)

unfoldable pub rpc_outcome : JsonRpcResponse → Result Value AgentError
unfolding display_rpc_error
rpc_outcome r = elim r.error [
  | some e ↦ err (mcp_error (display_rpc_error e))
  | none ↦ elim r.result [
    | none ↦ err (mcp_error "Missing result in JSON-RPC response")
    | some v ↦ ok v
  ]
]

module _ {W : Type 0} (host : Host W) (codec : Codec) where
  unfoldable pub read_body : String → Result Value AgentError
  unfolding rpc_outcome extract_json_from_response
  read_body body =
      and_then
        (map_err (λ e. mcp_error ("Invalid JSON-RPC response: " <> e <> ": " <> body))
          (codec.from_str (extract_json_from_response body)))
        rpc_outcome

  unfoldable pub receive_rpc :
      McpClient → Result HttpResponse AgentError × W → Result Value AgentError × McpClient × W
  unfolding read_body capture_session
  receive_rpc client (err e, w) = (err e, client, w)
  receive_rpc client (ok response, w) =
      (read_body response.body, capture_session client response.headers, w)

  -- `fetch_add` wraps.
  unfoldable pub take_id : McpClient → McpClient
  take_id client = record client { next_id = (client.next_id + 1) % 2 ^ 64 }

  unfoldable pub send_request :
      McpClient → String → Option Value → W → Result Value AgentError × McpClient × W
  unfolding receive_rpc request_headers take_id
  send_request client method params w =
      elim (codec.to_vec (record { id = client.next_id; method = method; params = params })) [
        | err e ↦ (err (serialization e), take_id client, w)
        | ok body ↦
            receive_rpc (take_id client)
              (host.post (client.server_url <> "/mcp") (request_headers client) body w)
      ]

  abbrev pub initialize_params : Value
  initialize_params = object (
      field "protocolVersion" (string "2025-03-26") (
        field "capabilities" (object end) (
          field "clientInfo"
            (object (field "name" (string "edgeclaw") (field "version" (string "0.1.0") end)))
            end)))

  unfoldable pub initialize : McpClient → W → Result (Option Value) AgentError × McpClient × W
  unfolding send_request
  initialize client w =
      let (r, client', w') = send_request client "initialize" (some initialize_params) w in
      (
        and_then r (λ v.
            map_err (λ e. mcp_error ("Failed to parse initialize result: " <> e))
              (codec.read_initialize v)),
        client',
        w',
      )

  abbrev pub tool_definition : McpToolDef → ToolDefinition
  tool_definition t = record {
    name = t.name;
    description = unwrap_or t.description "";
    input_schema = unwrap_or t.input_schema (object (field "type" (string "object") end));
  }

  unfoldable pub list_tools :
      McpClient → W → Result (List ToolDefinition) AgentError × McpClient × W
  unfolding send_request
  list_tools client w =
      let (r, client', w') = send_request client "tools/list" none w in
      (
        and_then r (λ v.
            and_then
              (map_err (λ e. mcp_error ("Failed to parse tools/list result: " <> e))
                (codec.read_tools v))
              (λ tools. ok (map tool_definition tools))),
        client',
        w',
      )

  abbrev pub call_result : ToolCallResult → ToolResult
  call_result r = record { tool_use_id = ""; content = join "\n" r.content; is_error = r.is_error }

  unfoldable pub call_tool :
      McpClient → String → Value → W → Result ToolResult AgentError × McpClient × W
  unfolding send_request
  call_tool client name arguments w =
      let (r, client', w') =
        send_request client "tools/call"
          (some (object (field "name" (string name) (field "arguments" arguments end)))) w in
      (
        and_then r (λ v.
            and_then
              (map_err (λ e. mcp_error ("Failed to parse tools/call result: " <> e))
                (codec.read_call v))
              (λ c. ok (call_result c))),
        client',
        w',
      )
