-- ===== src/Handlers/History.antt =====
-- crates/edgeclaw-server/src/handlers.rs: the handlers of messages, of the history and of approvals.
pub mod Laws
mod Tests
use edgeclaw.Prelude.{
  ℕ, String, Option, none, some, Bool, not, List, [], ◌∷◌, map, retain, filter_map, take, length,
  str_eq,
}
use edgeclaw.Prelude.Text.{◌<>◌, decimal}
use edgeclaw.Json.{Value, string, unsigned, array, object, field, end}
use edgeclaw.Types.{Result, ok, err, AgentError, ToolCall, display_error}
use edgeclaw.Database.{Tables, MessageRow, ApprovalRow, reverse}
use edgeclaw.Turn.{World, Server, ServerConfig, TurnReply, auto_approve, run_agent_turn}
use edgeclaw.Turn.Approval.{
  ApprovalError, panicked, agent_error, ApprovalReply, awaiting_approval, resolved, approvals_of,
  clear_approvals, handle_approval,
}
use edgeclaw.Turn.Approval
use edgeclaw.Handlers.{Failure, Reply, internal_error, int_value, option_value, items}

-- serde_json on one stored text.
module _ (from_json : String → Option Value) where
  unfoldable pub message_json : MessageRow → Option Value
  message_json row = elim (from_json row.content) [
    | none ↦ none
    | some content ↦ some (
        object (
          field "role" (string row.role)
            (field "content" content (field "created_at" (int_value row.created_at) end))))
  ]

  -- `history_handler`: ORDER BY id ASC LIMIT 50.
  unfoldable pub history : String → Tables → Reply
  unfolding message_json
  history user_id db = ok (
      array (
        items (
          filter_map message_json
            (take 50 (reverse (retain (λ r. str_eq r.user_id user_id) db.messages))))))

  unfoldable pub approval_json : ApprovalRow → Option Value
  approval_json row = elim (from_json row.tool_call) [
    | none ↦ none
    | some tool_call ↦ some (
        object (
          field "id" (unsigned row.id)
            (field "tool_call" tool_call (field "created_at" (int_value row.created_at) end))))
  ]

  -- `list_approvals_handler`.
  unfoldable pub list_approvals : String → Tables → Reply
  unfolding approval_json approvals_of
  list_approvals user_id db =
      ok (array (items (filter_map approval_json (approvals_of user_id db))))

unfoldable pub clear_messages : String → Tables → Tables
clear_messages user_id db = record db {
  messages = retain (λ r. not (str_eq r.user_id user_id)) db.messages;
}

-- `clear_history_handler`.
unfoldable pub clear_history : String → Tables → Reply × Tables
unfolding clear_messages clear_approvals
clear_history user_id db = (
  ok (
      object (
        field "status" (string "cleared") (
          field "messages_deleted"
            (unsigned (length (retain (λ r. str_eq r.user_id user_id) db.messages)))
            (field "approvals_deleted"
              (unsigned (length (retain (λ r. str_eq r.user_id user_id) db.pending_approvals)))
              end)))),
  clear_approvals user_id (clear_messages user_id db),
)

abbrev pub call_json : ToolCall → Value
call_json tc =
    object (field "id" (string tc.id) (field "name" (string tc.name) (field "input" tc.input end)))

abbrev pub calls_json : List ToolCall → Value
calls_json tcs = array (items (map call_json tcs))

unfoldable pub turn_json : TurnReply → Value
turn_json r = object (
    field "answer" (option_value string r.answer)
      (field "pending_tool_calls" (calls_json r.pending_tool_calls) end))

unfoldable pub approval_reply_json : ApprovalReply → Value
approval_reply_json (awaiting_approval answer pending) = object (
    field "status" (string "awaiting_approval") (
      field "answer" (option_value string answer)
        (field "pending_approvals" (calls_json pending) end)))
approval_reply_json (resolved status answer pending) = object (
    field "status" (string status) (
      field "answer" (option_value string answer)
        (field "pending_tool_calls" (calls_json pending) end)))

module _ {O : Type 0} (server : Server O) (config : ServerConfig) where
  unfoldable pub reply_turn : Result TurnReply AgentError × World O → Reply × World O
  unfolding turn_json internal_error display_error
  reply_turn (ok r, w) = (ok (turn_json r), w)
  reply_turn (err e, w) = (err (internal_error (display_error e)), w)

  -- `message_handler`; `none` where the rounds do not suffice.
  unfoldable pub handle_message :
      ℕ → (user_id message : String) → World O → Option (Reply × World O)
  unfolding reply_turn run_agent_turn
  handle_message fuel user_id message w =
      elim (run_agent_turn server config user_id none auto_approve fuel message w) [
        | none ↦ none
        | some x ↦ some (reply_turn x)
      ]

  -- A handler that panics gives no reply.
  unfoldable pub reply_approval :
      Result ApprovalReply ApprovalError × World O → Option Reply × World O
  unfolding approval_reply_json internal_error display_error
  reply_approval (ok r, w) = (some (ok (approval_reply_json r)), w)
  reply_approval (err (Approval.not_found id), w) =
      (some (err (internal_error ("Pending approval " <> decimal id <> " not found"))), w)
  reply_approval (err panicked, w) = (none, w)
  reply_approval (err (agent_error e), w) = (some (err (internal_error (display_error e))), w)

  -- `approve_handler`.
  unfoldable pub handle_approve : (user_id : String) → ℕ → Bool → World O → Option Reply × World O
  unfolding reply_approval handle_approval
  handle_approve user_id id approve w =
      reply_approval (handle_approval server user_id config id approve w)
