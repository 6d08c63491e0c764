-- ===== src/Tools/Memory.antt =====
-- crates/edgeclaw-server/src/builtins/memory.rs: the facts that a user has stored, and the tools on them.
-- Statements on the table succeed.
pub mod Laws
pub mod Unique
pub mod Map
mod Tests
use edgeclaw.Prelude.{
  ℕ, String, Option, none, some, Bool, true, false, not, ◌&&◌, List, [], ◌∷◌, ◌++◌, map, any,
  retain, is_empty, str_eq, if◌then◌else◌,
}
use edgeclaw.Prelude.Int.{ℤ}
use edgeclaw.Prelude.Text.{◌<>◌, join}
use edgeclaw.Json.{Value, get_str}
use edgeclaw.Types.{ToolResult, Result, ok, err, require_str, ok_result, err_result}

-- A row of the table `memory_facts`.
pub record Fact : Type 0 where
  pub user_id : String
  pub key : String
  pub value : String
  pub tags : Option String
  pub created_at : ℤ

-- SQLite's LIKE, which no NULL passes, and ORDER BY created_at DESC LIMIT.
pub record Sqlite : Type 0 where
  pub like : (tags pattern : String) → Bool
  pub newest : ℕ → List Fact → List Fact

abbrev tag_text : Option String → String
tag_text none = ""
tag_text (some t) = " [tags: " <> t <> "]"

unfoldable pub fact_line : Fact → String
fact_line fact = "- " <> fact.key <> ": " <> fact.value <> tag_text fact.tags

unfoldable pub format_facts : List Fact → ToolResult
unfolding fact_line
format_facts [] = ok_result "No facts found."
format_facts (fact ∷ facts) = ok_result (join "\n" (map fact_line (fact ∷ facts)))

-- `user_id = ? AND key = ?`, the columns of the unique constraint.
unfoldable pub is_fact : String → String → Fact → Bool
is_fact user_id key fact = str_eq fact.user_id user_id && str_eq fact.key key

-- INSERT … ON CONFLICT(user_id, key) DO UPDATE: the row of the key keeps its place.
unfoldable pub upsert : String → String → String → Option String → ℤ → List Fact → List Fact
unfolding is_fact
upsert user_id key value tags now [] =
    record { user_id = user_id; key = key; value = value; tags = tags; created_at = now } ∷ []
upsert user_id key value tags now (fact ∷ facts) =
    let rest = upsert user_id key value tags now facts in
    if is_fact user_id key fact
    then record fact { value = value; tags = tags; created_at = now } ∷ facts
    else fact ∷ rest

module _ (sqlite : Sqlite) (user_id : String) where
  -- `MemoryStoreTool::execute`.
  unfoldable pub store_with :
      String → Option String → ℤ → Result String ToolResult → List Fact → ToolResult × List Fact
  unfolding upsert
  store_with key tags now (err e) facts = (e, facts)
  store_with key tags now (ok value) facts =
      (ok_result ("Stored fact: " <> key), upsert user_id key value tags now facts)

  unfoldable pub store_key :
      Value → ℤ → Result String ToolResult → List Fact → ToolResult × List Fact
  unfolding store_with
  store_key input now (err e) facts = (e, facts)
  store_key input now (ok key) facts =
      store_with key (get_str input "tags") now (require_str input "value") facts

  unfoldable pub memory_store : Value → ℤ → List Fact → ToolResult × List Fact
  unfolding store_key require_str
  memory_store input now facts = store_key input now (require_str input "key") facts

  unfoldable pub has_tag : String → Fact → Bool
  has_tag tag fact = elim fact.tags [
    | none ↦ false
    | some tags ↦ sqlite.like tags ("%" <> tag <> "%")
  ]

  -- `MemoryFetchTool::execute`: a key comes before a tag.
  unfoldable pub fetch_by : Option String → Option String → List Fact → ToolResult
  unfolding format_facts is_fact has_tag
  fetch_by (some key) tag facts = format_facts (retain (is_fact user_id key) facts)
  fetch_by none (some tag) facts =
      format_facts (retain (λ f. str_eq f.user_id user_id && has_tag tag f) facts)
  fetch_by none none facts = err_result "Provide either 'key' or 'tag' to search."

  unfoldable pub memory_fetch : Value → List Fact → ToolResult
  unfolding fetch_by
  memory_fetch input facts = fetch_by (get_str input "key") (get_str input "tag") facts

  -- `MemoryListTool::execute`.
  unfoldable pub selected : Option String → List Fact → List Fact
  unfolding has_tag
  selected (some tag) facts =
      sqlite.newest 100 (retain (λ f. str_eq f.user_id user_id && has_tag tag f) facts)
  selected none facts = sqlite.newest 100 (retain (λ f. str_eq f.user_id user_id) facts)

  unfoldable pub list_facts : List Fact → ToolResult
  unfolding format_facts
  list_facts [] = ok_result "No facts stored."
  list_facts (fact ∷ facts) = format_facts (fact ∷ facts)

  unfoldable pub memory_list : Value → List Fact → ToolResult
  unfolding selected list_facts
  memory_list input facts = list_facts (selected (get_str input "tag") facts)

  -- `MemoryDeleteTool::execute`.
  unfoldable pub delete_key : Result String ToolResult → List Fact → ToolResult × List Fact
  unfolding is_fact
  delete_key (err e) facts = (e, facts)
  delete_key (ok key) facts = (
    if any (is_fact user_id key) facts
        then ok_result ("Deleted fact: " <> key)
        else ok_result ("No fact found with key '" <> key <> "'"),
    retain (λ f. not (is_fact user_id key f)) facts,
  )

  unfoldable pub memory_delete : Value → List Fact → ToolResult × List Fact
  unfolding delete_key require_str
  memory_delete input facts = delete_key (require_str input "key") facts
