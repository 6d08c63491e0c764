-- ===== src/Skills.antt =====
-- crates/skill-registry/src/lib.rs: the skills of a user, each with its MCP client, and the routing
-- of tool calls to them.
pub mod Routing
pub mod Rows
mod Tests
use edgeclaw.Prelude.{
  String, Option, none, some, true, false, List, [], ◌∷◌, ◌++◌, str_eq, unwrap_or,
}
use edgeclaw.Prelude.Int.{ℤ}
use edgeclaw.Prelude.Text.{◌<>◌, split_once}
use edgeclaw.Json.{Value}
use edgeclaw.Types.{
  ToolDefinition, ToolCall, ToolResult, AgentError, mcp_error, serialization, skill_not_found,
  Result, ok, err, and_then, map_err,
}
use edgeclaw.Host.{Host}
use edgeclaw.Mcp.{McpClient, Codec, new_client, initialize, list_tools, call_tool}

pub record SkillRow : Type 0 where
  pub name : String
  pub url : String
  pub tools_json : String
  pub added_at : ℤ
  pub auth_header_name : Option String
  pub auth_header_value : Option String
  pub skill_context : Option String
  pub session_id : Option String

unfoldable pub build_extra_headers : Option String → Option String → List (String × String)
build_extra_headers name (some value) = (unwrap_or name "authorization", value) ∷ []
build_extra_headers name none = []

pub record RegisteredSkill : Type 0 where
  pub name : String
  pub tools : List ToolDefinition
  pub client : McpClient

-- `SkillRegistry`, whose clients change as they are used.
abbrev pub SkillRegistry : Type 0
SkillRegistry = List RegisteredSkill

-- serde_json on the list of tools; a failure is its text.
pub record ToolsJson : Type 0 where
  pub to_string : List ToolDefinition → Result String String
  pub from_str : String → Result (List ToolDefinition) String

-- The client with the session that the row keeps.
unfoldable pub restore_session : Option String → McpClient → McpClient
restore_session none client = client
restore_session (some sid) client = record client { session_id = some sid }

module _ (json : ToolsJson) where
  unfoldable pub from_row : SkillRow → Result RegisteredSkill AgentError
  unfolding restore_session build_extra_headers
  from_row row =
      and_then
        (map_err (λ e. mcp_error ("Bad cached tools for " <> row.name <> ": " <> e))
          (json.from_str row.tools_json))
        (λ tools. ok (record {
          name = row.name;
          tools = tools;
          client =
              restore_session row.session_id (
                new_client row.url
                  (build_extra_headers row.auth_header_name row.auth_header_value));
        }))

  unfoldable pub from_rows : List SkillRow → Result SkillRegistry AgentError
  unfolding from_row
  from_rows [] = ok []
  from_rows (row ∷ rows) =
      and_then (from_row row) (λ skill. and_then (from_rows rows) (λ skills. ok (skill ∷ skills)))

-- `all_tools`, and the part of one skill.
unfoldable pub skill_tools : String → List ToolDefinition → List ToolDefinition
skill_tools name [] = []
skill_tools name (tool ∷ tools) =
    (record tool { name = name <> "__" <> tool.name }) ∷ skill_tools name tools

unfoldable pub all_tools : SkillRegistry → List ToolDefinition
unfolding skill_tools
all_tools [] = []
all_tools (skill ∷ skills) = skill_tools skill.name skill.tools ++ all_tools skills

module _ {W : Type 0} (host : Host W) (codec : Codec) where
  -- The call goes to the first skill of the name, whose client is kept as the call left it.
  unfoldable pub call_skill :
      String
      → String
      → ToolCall
      → SkillRegistry
      → W
      → Result ToolResult AgentError × SkillRegistry × W
  call_skill skill_name tool_name tc [] w = (err (skill_not_found skill_name), [], w)
  call_skill skill_name tool_name tc (skill ∷ skills) w = elim (str_eq skill.name skill_name) [
    | true ↦
        let (r, client, w') = call_tool host codec skill.client tool_name tc.input w in
        (
          and_then r (λ t. ok (record t { tool_use_id = tc.id })),
          (record skill { client = client }) ∷ skills,
          w',
        )
    | false ↦
        let (r, skills', w') = call_skill skill_name tool_name tc skills w in
        (r, skill ∷ skills', w')
  ]

  unfoldable pub dispatch :
      ToolCall → SkillRegistry → W → Result ToolResult AgentError × SkillRegistry × W
  unfolding call_skill
  dispatch tc registry w = elim (split_once "__" tc.name) [
    | none ↦ (
      err (
          skill_not_found
            ("Tool name '" <> tc.name <> "' has no skill prefix (expected 'skill__tool')")),
      registry,
      w,
    )
    | some (skill_name, tool_name) ↦ call_skill skill_name tool_name tc registry w
  ]

  -- `register`: the row to store, and the registry with the skill in it.
  abbrev pub Registered : Type 0
  Registered = Result SkillRow AgentError × SkillRegistry × W

  module _ (json : ToolsJson) (name url : String) (now : ℤ)
      (auth_name auth_value : Option String) where
    unfoldable pub registered : SkillRegistry → List ToolDefinition → McpClient → W → Registered
    registered registry tools client w = elim (json.to_string tools) [
      | err e ↦ (err (serialization e), registry, w)
      | ok tools_json ↦ (
        ok (record {
          name = name;
          url = url;
          tools_json = tools_json;
          added_at = now;
          auth_header_name = auth_name;
          auth_header_value = auth_value;
          skill_context = none;
          session_id = client.session_id;
        }),
        registry ++ (record { name = name; tools = tools; client = client }) ∷ [],
        w,
      )
    ]

    unfoldable pub after_list_tools :
        SkillRegistry → Result (List ToolDefinition) AgentError × McpClient × W → Registered
    unfolding registered
    after_list_tools registry (err e, client, w) = (err e, registry, w)
    after_list_tools registry (ok tools, client, w) = registered registry tools client w

    unfoldable pub after_initialize :
        SkillRegistry → Result (Option Value) AgentError × McpClient × W → Registered
    unfolding after_list_tools list_tools
    after_initialize registry (err e, client, w) = (err e, registry, w)
    after_initialize registry (ok capabilities, client, w) =
        after_list_tools registry (list_tools host codec client w)

    unfoldable pub register : SkillRegistry → W → Registered
    unfolding after_initialize initialize
    register registry w =
        after_initialize registry
          (initialize host codec (new_client url (build_extra_headers auth_name auth_value)) w)
