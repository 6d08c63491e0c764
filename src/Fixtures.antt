-- ===== src/Fixtures.antt =====
-- An outside world for the tests: a server that answers every request alike, and readers of its answers.
use edgeclaw.Prelude.{
  ℕ, suc, String, ◌≡◌, Option, none, some, false, ◌&&◌, not, List, [], ◌∷◌, str_eq, eq_iff,
  if◌then◌else◌, arith,
}
use edgeclaw.Prelude.Int.{pos}
use edgeclaw.Json.{Value, null, bool, unsigned, other_number, string, array, object}
use edgeclaw.Types.{
  ContentBlock, text, tool_use, ToolDefinition, ToolCall, ToolResult, Result, ok, err,
}
use edgeclaw.Host
use edgeclaw.Host.{Host}
use edgeclaw.Mcp.{Codec}
use edgeclaw.Skills.{ToolsJson}
use edgeclaw.Database.{Json, Tables}
use edgeclaw.Executor.{BuiltinExecutor, BuiltinTool}
use edgeclaw.Permissions.{default_chain}
use edgeclaw.Turn.{Channel, ServerConfig, Server, World}

abbrev pub in_order : {W : Type 0} → List (W → ToolResult × W) → W → List ToolResult × W
in_order [] w = ([], w)
in_order (f ∷ fs) w = let (r, w') = f w in let (rs, w'') = in_order fs w' in (r ∷ rs, w'')

-- The model asks for `bash` in every answer, and every server names a session.
abbrev pub host : {W : Type 0} → Host W
host = record {
  post = λ url headers body w.
      (ok (record { body = "{}"; headers = ("Mcp-Session-Id", "s1") ∷ [] }), w);
  to_vec = λ request. ok "request";
  parse_response = λ body.
      some (record { stop_reason = Host.tool_use; content = tool_use "t1" "bash" null ∷ [] });
  parse_error = λ body. none;
  join_all = in_order;
}

abbrev pub codec : Codec
codec = record {
  to_vec = λ request. ok request.method;
  from_str = λ s. ok (record { result = some null; error = none });
  read_initialize = λ v. ok none;
  read_tools =
      λ v. ok (record { name = "search"; description = none; input_schema = some null } ∷ []);
  read_call = λ v. ok (record { content = "one" ∷ "two" ∷ []; is_error = false });
}

-- A list of at most one tool, which has no description and no schema, is written as its name.
abbrev one_tool : String → String → Value → Result String String
one_tool name description null =
    if str_eq description "" && not (str_eq name "[]") then ok name else err "unsupported"
one_tool name description _ = err "unsupported"

abbrev write_tools : List ToolDefinition → Result String String
write_tools [] = ok "[]"
write_tools (tool ∷ []) = one_tool tool.name tool.description tool.input_schema
write_tools (tool ∷ other ∷ tools) = err "unsupported"

abbrev read_tools : String → Result (List ToolDefinition) String
read_tools s =
    if str_eq s "[]"
    then ok []
    else ok (record { name = s; description = ""; input_schema = null } ∷ [])

abbrev pub tools_json : ToolsJson
tools_json = record { to_string = write_tools; from_str = read_tools }

read_one :
    (name description : String) (schema : Value) (s : String)
    → one_tool name description schema ≡ ok s
    → read_tools s
      ≡ ok (record { name = name; description = description; input_schema = schema } ∷ [])
read_one name description null s h =
    ground (arith, eq_iff description "", eq_iff name "[]", eq_iff s "[]")
read_one name description (bool b) s h = cc
read_one name description (unsigned n) s h = cc
read_one name description (other_number n) s h = cc
read_one name description (string t) s h = cc
read_one name description (array items) s h = cc
read_one name description (object fields) s h = cc

pub tools_json-reads :
    (tools : List ToolDefinition) (s : String)
    → tools_json.to_string tools ≡ ok s
    → tools_json.from_str s ≡ ok tools
tools_json-reads [] s h = ground (arith, eq_iff s "[]")
tools_json-reads (tool ∷ []) s h = read_one tool.name tool.description tool.input_schema s h
tools_json-reads (tool ∷ other ∷ tools) s h = cc

-- One text is written as itself; a call of `bash` without input as its id.
abbrev write_content : List ContentBlock → Option String
write_content (text t ∷ []) = some t
write_content _ = none

abbrev pub json : Json
json = record {
  write_content = write_content;
  read_content = λ s. some (text s ∷ []);
  write_call = λ tc. some tc.id;
  read_call = λ s. some (record { id = s; name = "bash"; input = null });
}

abbrev pub no_tables : Tables
no_tables = record {
  users = [];
  messages = [];
  skills = [];
  souls = [];
  prefs = [];
  pending_approvals = [];
  next_approval = 1;
}

abbrev pub bash_call : ToolCall
bash_call = record { id = "t1"; name = "bash"; input = null }

-- A built-in tool that counts its runs.
abbrev pub bash_tool : BuiltinTool (World ℕ)
bash_tool = record {
  definition = record { name = "bash"; description = "Runs a command"; input_schema = null };
  is_concurrent_safe = false;
  execute = λ input w. (
    record { tool_use_id = ""; content = "done"; is_error = false },
    record w { outside = suc w.outside },
  );
}

abbrev pub executor : BuiltinExecutor (World ℕ)
executor = record { builtins = ("bash", bash_tool) ∷ []; policy = default_chain }

abbrev pub server : Server ℕ
server = record {
  host = host;
  codec = codec;
  tools_json = tools_json;
  json = json;
  clock = λ w. pos 7;
  builtins = λ user_id. executor;
}

-- A client that never answers.
abbrev pub silent : Channel (World ℕ)
silent = record {
  new_request_id = λ w. ("r1", w);
  insert_pending = λ id w. w;
  send = λ m w. w;
  wait = λ id w. (none, w);
}

abbrev pub config : ServerConfig
config = record {
  anthropic_api_key = none;
  default_model = none;
  anthropic_base_url = "https://api.anthropic.com";
}

abbrev pub world : World ℕ
world = record { db = no_tables; outside = 0 }
