-- ===== src/Database.antt =====
-- The server's SQLite tables (crates/edgeclaw-server/migrations) as far as an agent's turn uses them,
-- and the statements on them of crates/edgeclaw-server/src/agent.rs. Every statement succeeds.
pub mod Messages
mod Tests
use edgeclaw.Prelude.{
  ℕ, ◌+◌, String, Option, none, some, Bool, not, ◌||◌, ◌&&◌, List, [], ◌∷◌, ◌++◌, map, any, find,
  retain, filter_map, take, str_eq, ◌==◌, if◌then◌else◌, unwrap_or,
}
use edgeclaw.Prelude.Int.{ℤ}
use edgeclaw.Prelude.Text.{◌<>◌}
use edgeclaw.Types.{Role, user, assistant, ContentBlock, Message, ToolCall, Result, ok, err}
use edgeclaw.Soul
use edgeclaw.Soul.{Soul, compose_system_prompt, field_or}
use edgeclaw.Soul.Archetype
use edgeclaw.Soul.Tone
use edgeclaw.Soul.Verbosity
use edgeclaw.Soul.DecisionStyle
use edgeclaw.Skills.{SkillRow}

pub record MessageRow : Type 0 where
  pub user_id : String
  pub role : String
  pub content : String
  pub created_at : ℤ

pub record SoulRow : Type 0 where
  pub user_id : String
  pub name : String
  pub personality : String
  pub archetype : String
  pub tone : String
  pub verbosity : String
  pub decision_style : String
  pub created_at : ℤ
  pub updated_at : ℤ

pub record PrefRow : Type 0 where
  pub user_id : String
  pub key : String
  pub value : String

pub record ApprovalRow : Type 0 where
  pub id : ℕ
  pub user_id : String
  pub tool_call : String
  pub created_at : ℤ

-- The messages and the approvals stand newest first; an approval's id is the next of its sequence.
pub record Tables : Type 0 where
  pub users : List (String × ℤ)
  pub messages : List MessageRow
  pub skills : List (String × SkillRow)
  pub souls : List SoulRow
  pub prefs : List PrefRow
  pub pending_approvals : List ApprovalRow
  pub next_approval : ℕ

-- serde_json on the contents of a message and on a tool call; a failure to write is `none`.
pub record Json : Type 0 where
  pub write_content : List ContentBlock → Option String
  pub read_content : String → Option (List ContentBlock)
  pub write_call : ToolCall → Option String
  pub read_call : String → Option ToolCall

abbrev pub has_user : String → List (String × ℤ) → Bool
has_user user_id users = any (λ row. str_eq row.0 user_id) users

-- INSERT OR IGNORE INTO users.
unfoldable pub ensure_user : String → ℤ → Tables → Tables
ensure_user user_id now db =
    if has_user user_id db.users then db else record db { users = (user_id, now) ∷ db.users }

unfoldable pub role_of : String → Option Role
role_of s =
    if str_eq s "user" then some user else if str_eq s "assistant" then some assistant else none

-- A row whose role or contents cannot be read is left out.
unfoldable pub message_of_parts : Option Role → Option (List ContentBlock) → ℤ → Option Message
message_of_parts (some role) (some content) created_at =
    some (record { role = role; content = content; created_at = created_at })
message_of_parts none content created_at = none
message_of_parts (some role) none created_at = none

abbrev pub reverse {ℓ} : {A : Type ℓ} → List A → List A
reverse [] = []
reverse (x ∷ xs) = reverse xs ++ x ∷ []

unfoldable pub role_text : Role → String
role_text user = "user"
role_text assistant = "assistant"

module _ (json : Json) where
  unfoldable pub message_of_row : MessageRow → Option Message
  unfolding role_of message_of_parts
  message_of_row row =
      message_of_parts (role_of row.role) (json.read_content row.content) row.created_at

  unfoldable pub load_messages : String → ℕ → Tables → List Message
  unfolding message_of_row
  load_messages user_id limit db =
      reverse (
        filter_map message_of_row (take limit (retain (λ r. str_eq r.user_id user_id) db.messages)))

  unfoldable pub row_of_message : String → ℤ → Message → MessageRow
  unfolding role_text
  row_of_message user_id now msg = record {
    user_id = user_id;
    role = role_text msg.role;
    content = unwrap_or (json.write_content msg.content) "";
    created_at = now;
  }

  unfoldable pub persist_messages : String → ℤ → List Message → Tables → Tables
  unfolding row_of_message
  persist_messages user_id now [] db = db
  persist_messages user_id now (msg ∷ msgs) db =
      persist_messages user_id now msgs
        (record db { messages = row_of_message user_id now msg ∷ db.messages })

  abbrev pub approval_row : String → ℤ → ToolCall → ℕ → ApprovalRow
  approval_row user_id now tc id = record {
    id = id;
    user_id = user_id;
    tool_call = unwrap_or (json.write_call tc) "";
    created_at = now;
  }

  unfoldable pub persist_pending_approval : String → ℤ → ToolCall → Tables → Tables
  persist_pending_approval user_id now tc db = record db {
    pending_approvals = approval_row user_id now tc db.next_approval ∷ db.pending_approvals;
    next_approval = db.next_approval + 1;
  }

unfoldable pub soul_of_row : SoulRow → Soul
soul_of_row row = record {
  name = row.name;
  personality = row.personality;
  archetype = field_or Archetype.from_str Archetype.default (some row.archetype);
  tone = field_or Tone.from_str Tone.default (some row.tone);
  verbosity = field_or Verbosity.from_str Verbosity.default (some row.verbosity);
  decision_style = field_or DecisionStyle.from_str DecisionStyle.default (some row.decision_style);
}

-- The soul of one without a row: the prompt that an older version kept among the preferences.
unfoldable pub soul_of_pref : Option PrefRow → Soul
soul_of_pref (some pref) = record Soul.default { name = ""; personality = pref.value }
soul_of_pref none = Soul.default

unfoldable pub load_soul : String → Tables → Soul
unfolding soul_of_row soul_of_pref
load_soul user_id db = elim (find (λ r. str_eq r.user_id user_id) db.souls) [
  | some row ↦ soul_of_row row
  | none ↦
      soul_of_pref (find (λ r. str_eq r.user_id user_id && str_eq r.key "system_prompt") db.prefs)
]

unfoldable pub with_hint : Option String → String → String
with_hint none prompt = prompt
with_hint (some hint) prompt = prompt <> "\n\n" <> hint

unfoldable pub with_contexts : List SkillRow → String → String
with_contexts [] prompt = prompt
with_contexts (row ∷ rows) prompt = with_contexts rows (with_hint row.skill_context prompt)

unfoldable pub build_system_prompt : String → List SkillRow → Option String → Tables → String
unfolding load_soul compose_system_prompt with_hint with_contexts
build_system_prompt user_id skill_rows system_hint db =
    with_contexts skill_rows (with_hint system_hint (compose_system_prompt (load_soul user_id db)))

abbrev pub owned : String → String × SkillRow → Option SkillRow
owned user_id (owner, row) = if str_eq owner user_id then some row else none

-- The query has no ORDER BY: SQLite serves it by the index of the primary key, so by name. The list of rows stands in
-- the order of that index.
unfoldable pub load_skills : String → Tables → List SkillRow
load_skills user_id db = filter_map (owned user_id) db.skills
