-- ===== src/Skills/Rows.antt =====
-- A skill that is registered, stored as a row, and built again from the row.
use edgeclaw.Prelude.{String, ◌≡◌, refl, ◌∙◌, Option, none, some, List, [], ◌∷◌, ◌++◌}
use edgeclaw.Prelude.Int.{ℤ}
use edgeclaw.Json.{Value}
use edgeclaw.Types.{ToolDefinition, AgentError, Result, ok, err}
use edgeclaw.Host.{Host}
use edgeclaw.Mcp.{McpClient, Codec, new_client, initialize, list_tools, initialize_params}
use edgeclaw.Mcp.Session.{send_request-Keeps}
use edgeclaw.Skills.{
  SkillRow, SkillRegistry, RegisteredSkill, ToolsJson, build_extra_headers, restore_session,
  from_row, Registered, registered, after_list_tools, after_initialize, register,
}

-- The client as it is, but for the number of the next request.
abbrev pub restarted : RegisteredSkill → RegisteredSkill
restarted skill = record skill { client = record skill.client { next_id = 1 } }

restore_session-new :
    (o : Option String) (url : String) (headers : List (String × String))
    → restore_session o (new_client url headers)
      ≡ record { server_url = url; next_id = 1; extra_headers = headers; session_id = o }
unfolding restore_session
restore_session-new none url headers = refl
restore_session-new (some v) url headers = refl

module _ {W : Type 0} (host : Host W) (codec : Codec) (json : ToolsJson)
    (reads : (tools : List ToolDefinition) (s : String)
      → json.to_string tools ≡ ok s
      → json.from_str s ≡ ok tools)
    (name url : String) (now : ℤ) (auth_name auth_value : Option String) where
  -- What the row and the registry have to do with each other.
  abbrev pub Restorable : SkillRegistry → SkillRow → SkillRegistry → Type 0
  Restorable registry row registry' =
      (skill : RegisteredSkill) × (registry' ≡ registry ++ skill ∷ [])
      × (skill.name ≡ name)
      × (from_row json row ≡ ok (restarted skill))

  abbrev Fresh : McpClient → Type 0
  Fresh c = (c.server_url ≡ url) × (c.extra_headers ≡ build_extra_headers auth_name auth_value)

  -- A registration ends with a row that restores the new skill, or leaves the registry as it was.
  abbrev pub Sound : SkillRegistry → Registered host codec → Type 0
  Sound registry (ok row, registry', w) = Restorable registry row registry'
  Sound registry (err e, registry', w) = registry' ≡ registry

  restored :
      (c : McpClient) (tools : List ToolDefinition) (s : String)
      → Fresh c
      → json.to_string tools ≡ ok s
      → from_row json (record {
        name = name;
        url = url;
        tools_json = s;
        added_at = now;
        auth_header_name = auth_name;
        auth_header_value = auth_value;
        skill_context = none;
        session_id = c.session_id;
      })
        ≡ ok (restarted (record { name = name; tools = tools; client = c }))
  unfolding from_row
  restored c tools s f q =
      rw
        (
          reads tools s q,
          restore_session-new c.session_id url (build_extra_headers auth_name auth_value),
          f.0,
          f.1,
        )
        refl

  registered-Sound :
      (registry : SkillRegistry) (tools : List ToolDefinition) (c : McpClient) (w : W)
      → Fresh c
      → Sound registry
          (registered host codec json name url now auth_name auth_value registry tools c w)
  unfolding registered
  registered-Sound registry tools c w f = go (json.to_string tools) refl
    where
      go :
          (r : Result String String)
          → json.to_string tools ≡ r
          → Sound registry
              (registered host codec json name url now auth_name auth_value registry tools c w)
      go (err x) q = rw (q, registered) refl
      go (ok s) q =
          rw (q, registered)
            (record { name = name; tools = tools; client = c }, refl, refl, restored c tools s f q)

  after_list_tools-Sound :
      (registry : SkillRegistry) (r : Result (List ToolDefinition) AgentError × McpClient × W)
      → Fresh r.1
      → Sound registry
          (after_list_tools host codec json name url now auth_name auth_value registry r)
  unfolding after_list_tools
  after_list_tools-Sound registry (err e, c, w) f = refl
  after_list_tools-Sound registry (ok tools, c, w) f = registered-Sound registry tools c w f

  list_tools-Fresh : (c : McpClient) (w : W) → Fresh c → Fresh (list_tools host codec c w).1
  unfolding list_tools
  list_tools-Fresh c w f =
      let k = send_request-Keeps host codec c "tools/list" none w in
      (k.server_url ∙ f.0, k.extra_headers ∙ f.1)

  after_initialize-Sound :
      (registry : SkillRegistry) (r : Result (Option Value) AgentError × McpClient × W)
      → Fresh r.1
      → Sound registry
          (after_initialize host codec json name url now auth_name auth_value registry r)
  unfolding after_initialize
  after_initialize-Sound registry (err e, c, w) f = refl
  after_initialize-Sound registry (ok a, c, w) f =
      after_list_tools-Sound registry (list_tools host codec c w) (list_tools-Fresh c w f)

  -- If serde_json reads back the tools that it wrote, a registration that succeeds adds one skill, of
  -- the given name, at the end, and gives a row that builds the same skill, session included, with the
  -- request numbers starting at 1 again. One that fails adds none.
  pub register-Sound :
      (registry : SkillRegistry) (w : W)
      → Sound registry (register host codec json name url now auth_name auth_value registry w)
  unfolding register initialize
  register-Sound registry w =
      let k =
        send_request-Keeps host codec (new_client url (build_extra_headers auth_name auth_value))
          "initialize" (some (initialize_params host codec)) w in
      after_initialize-Sound registry
        (initialize host codec (new_client url (build_extra_headers auth_name auth_value)) w)
        (k.server_url, k.extra_headers)
