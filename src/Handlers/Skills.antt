-- ===== src/Handlers/Skills.antt =====
-- crates/edgeclaw-server/src/handlers.rs: the handlers of skills.
pub mod Laws
mod Tests
use Prim.Native.Nat.{Ordering}
use Prim.Native.String.{compare}
use edgeclaw.Prelude.{
  ℕ, String, Option, none, some, Bool, true, false, ◌&&◌, ◌||◌, not, List, [], ◌∷◌, ◌++◌, map,
  retain, any, str_eq, if◌then◌else◌, unwrap_or,
}
use edgeclaw.Prelude.Int.{ℤ, pos}
use edgeclaw.Prelude.Text.{◌<>◌, starts_with}
use edgeclaw.Json.{Value, bool, unsigned, string, array, object, field, end}
use edgeclaw.Types.{Result, ok, err, AgentError, display_error, ToolDefinition}
use edgeclaw.Mcp.{Codec, McpClient, new_client, initialize}
use edgeclaw.Skills.{SkillRow, SkillRegistry, from_rows, register, all_tools}
use edgeclaw.Database.{Tables, ensure_user, load_skills}
use edgeclaw.Turn.{World, Server}
use edgeclaw.Handlers.{Failure, Reply, internal_error, not_found, int_value, items}

pub record AddSkillRequest : Type 0 where
  pub user_id : String
  pub name : String
  pub url : String
  pub auth_header_name : Option String
  pub auth_header_value : Option String

-- WHERE user_id = ? AND name = ?, the primary key.
unfoldable pub has_skill : String → String → String × SkillRow → Bool
has_skill user_id name (owner, row) = str_eq owner user_id && str_eq row.name name

unfoldable pub without_skill : String → String → List (String × SkillRow) → List (String × SkillRow)
unfolding has_skill
without_skill user_id name skills = retain (λ e. not (has_skill user_id name e)) skills

-- The order of the primary key, which is by user and then by name.
abbrev pub str_lt : String → String → Bool
str_lt a b = elim (compare a b) [ Ordering.lt ↦ true | _ ↦ false ]

unfoldable pub goes_before : String × SkillRow → String × SkillRow → Bool
goes_before (owner, row) (other, next) =
    str_lt owner other || (str_eq owner other && str_lt row.name next.name)

unfoldable pub put_in_order :
    String × SkillRow → List (String × SkillRow) → List (String × SkillRow)
unfolding goes_before
put_in_order e [] = e ∷ []
put_in_order e (next ∷ skills) =
    let rest = put_in_order e skills in
    if goes_before e next then e ∷ next ∷ skills else next ∷ rest

-- INSERT OR REPLACE INTO skills, whose columns leave out `skill_context`. The row takes its place in the index.
unfoldable pub put_skill : String → SkillRow → Tables → Tables
unfolding without_skill put_in_order
put_skill user_id row db = record db {
  skills =
      put_in_order (user_id, record row { skill_context = none })
        (without_skill user_id row.name db.skills);
}

-- The rows that the registry is made of here have no authorization.
unfoldable pub bare_row : SkillRow → SkillRow
bare_row row = record row {
  auth_header_name = none;
  auth_header_value = none;
  skill_context = none;
  session_id = none;
}

unfoldable pub added_tools : String → List ToolDefinition → List Value
added_tools name tools = map (λ t. string t.name) (retain (λ t. starts_with name t.name) tools)

module _ {O : Type 0} (server : Server O) where
  unfoldable pub after_register :
      String → Result SkillRow AgentError × SkillRegistry × World O → Reply × World O
  unfolding put_skill all_tools added_tools internal_error display_error
  after_register user_id (err e, registry, w) = (err (internal_error (display_error e)), w)
  after_register user_id (ok row, registry, w) = (
    ok (
        object (
          field "skill" (string row.name)
            (field "tools" (array (items (added_tools row.name (all_tools registry)))) end))),
    record w { db = put_skill user_id row w.db },
  )

  -- `add_skill_handler`.
  unfoldable pub add_skill : AddSkillRequest → World O → Reply × World O
  unfolding ensure_user bare_row load_skills from_rows after_register register internal_error
      display_error
  add_skill body w =
      let now = server.clock w in
      let w1 = record w { db = ensure_user body.user_id now w.db } in
      elim (from_rows server.tools_json (map bare_row (load_skills body.user_id w1.db))) [
        | err e ↦ (err (internal_error (display_error e)), w1)
        | ok registry ↦ after_register body.user_id (
            register server.host server.codec server.tools_json body.name body.url now
              body.auth_header_name body.auth_header_value registry w1)
      ]

  -- The wait of five seconds, which is `none` on a timeout.
  abbrev pub Timeout : Type 0
  Timeout =
      (World O → Result (Option Value) AgentError × McpClient × World O)
      → World O
      → Option (Result (Option Value) AgentError) × World O

  unfoldable pub connection_status : Option (Result (Option Value) AgentError) → String
  unfolding display_error
  connection_status (some (ok capabilities)) = "connected"
  connection_status (some (err e)) = "error: " <> display_error e
  connection_status none = "error: connection timed out"

  module _ (timeout : Timeout) (count_values : String → Option ℕ) where
    -- `skill_status_handler`, which tries the skills one after another; `count_values` is serde_json's
    -- reading of a list, and its length.
    unfoldable pub skill_statuses : List SkillRow → World O → List Value × World O
    unfolding connection_status initialize
    skill_statuses [] w = ([], w)
    skill_statuses (row ∷ rows) w =
        let (status, w1) =
          timeout (initialize server.host server.codec (new_client row.url [])) w in
        let (statuses, w2) = skill_statuses rows w1 in
        (
          object (
                field "name" (string row.name) (
                  field "url" (string row.url) (
                    field "status" (string (connection_status status)) (
                      field "tool_count" (unsigned (unwrap_or (count_values row.tools_json) 0))
                        end))))
              ∷ statuses,
          w2,
        )

    unfoldable pub skill_status : String → World O → Reply × World O
    unfolding skill_statuses load_skills
    skill_status user_id w =
        let (statuses, w') = skill_statuses (load_skills user_id w.db) w in
        (ok (array (items statuses)), w')

unfoldable pub skill_json : SkillRow → Value
skill_json row = object (
    field "name" (string row.name) (
      field "url" (string row.url) (
        field "tools_json" (string row.tools_json)
          (field "added_at" (int_value row.added_at) end))))

-- `list_skills_handler`.
unfoldable pub list_skills : String → Tables → Reply
unfolding skill_json load_skills
list_skills user_id db = ok (array (items (map skill_json (load_skills user_id db))))

-- `remove_skill_handler`; the reply is by whether a row was deleted.
unfoldable pub remove_skill : (skill_name user_id : String) → Tables → Reply × Tables
unfolding has_skill without_skill
remove_skill skill_name user_id db = (
  if any (has_skill user_id skill_name) db.skills
      then ok (object (field "removed" (bool true) (field "name" (string skill_name) end)))
      else err (not_found "skill not found"),
  record db { skills = without_skill user_id skill_name db.skills },
)
