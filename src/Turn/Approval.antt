-- ===== src/Turn/Approval.antt =====
-- crates/edgeclaw-server/src/agent.rs: `handle_approval`, for calls that wait in the table.
pub mod Laws
use edgeclaw.Prelude.{
  ℕ, String, Option, none, some, Bool, true, false, not, List, [], ◌∷◌, map, any, find, retain,
  str_eq, ◌==◌, ◌&&◌, if◌then◌else◌,
}
use edgeclaw.Types.{
  ToolCall, ToolResult, AgentRunResult, AgentError, PermissionCheck, allow, deny, requires_approval,
  Result, ok, err, error_for,
}
use edgeclaw.Agent
use edgeclaw.Skills.{SkillRegistry, from_rows}
use edgeclaw.Database.{
  Tables, Json, load_messages, persist_pending_approval, build_system_prompt, load_skills,
  ApprovalRow, reverse, persist_messages,
}
use edgeclaw.Executor
use edgeclaw.Executor.{check_permission}
use edgeclaw.Turn.{ServerConfig, World, Server, agent_of, store_messages, run_calls, denied}

-- How the handler fails; a stored call that cannot be read makes it panic.
pub data ApprovalError : Type 0 where
  not_found : ℕ → ApprovalError
  panicked : ApprovalError
  agent_error : AgentError → ApprovalError

pub data ApprovalReply : Type 0 where
  awaiting_approval : (answer : Option String) → (pending : List ToolCall) → ApprovalReply
  resolved :
      (status : String) → (answer : Option String) → (pending : List ToolCall) → ApprovalReply

abbrev pub is_allowed : PermissionCheck → Bool
is_allowed allow = true
is_allowed (deny r) = false
is_allowed (requires_approval r) = false

-- The user's pending calls, oldest first.
unfoldable pub approvals_of : String → Tables → List ApprovalRow
approvals_of user_id db = reverse (retain (λ r. str_eq r.user_id user_id) db.pending_approvals)

abbrev pub cons_call : Option ToolCall → Option (List ToolCall) → Option (List ToolCall)
cons_call none tcs = none
cons_call (some tc) none = none
cons_call (some tc) (some tcs) = some (tc ∷ tcs)

unfoldable pub calls_of : Json → List ApprovalRow → Option (List ToolCall)
calls_of json [] = some []
calls_of json (row ∷ rows) = cons_call (json.read_call row.tool_call) (calls_of json rows)

unfoldable pub clear_approvals : String → Tables → Tables
clear_approvals user_id db = record db {
  pending_approvals = retain (λ r. not (str_eq r.user_id user_id)) db.pending_approvals;
}

module _ {O : Type 0} (server : Server O) (user_id : String) where
  unfoldable pub persist_approvals : List ToolCall → World O → World O
  unfolding persist_pending_approval
  persist_approvals [] w = w
  persist_approvals (tc ∷ tcs) w =
      persist_approvals tcs
        (record w { db = persist_pending_approval server.json user_id (server.clock w) tc w.db })

  abbrev pub Handled : Type 0
  Handled = Result ApprovalReply ApprovalError × World O

  -- Whether a call that surfaced is not allowed outright.
  abbrev pub needs_approval : List ToolCall → Bool
  needs_approval tcs =
      any
        (λ tc.
          not (is_allowed (check_permission server.host server.codec (server.builtins user_id) tc)))
        tcs

  unfoldable pub status_of : Bool → String
  status_of approve = if approve then "approved" else "denied"

  unfoldable pub after_resume : Bool → Result AgentRunResult AgentError × World O → Handled
  unfolding persist_approvals persist_messages status_of
  after_resume approve (err e, w) = (err (agent_error e), w)
  after_resume approve (ok result, w) =
      let w1 = store_messages server user_id result.new_messages w in
      if needs_approval result.pending_tool_calls
      then (
        ok (awaiting_approval result.answer result.pending_tool_calls),
        persist_approvals result.pending_tool_calls w1,
      )
      else (ok (resolved (status_of approve) result.answer result.pending_tool_calls), w1)

  -- The results for all pending calls: what they give, or that they are denied.
  unfoldable pub resolve_calls :
      Bool → List ToolCall → SkillRegistry → World O → List ToolResult × SkillRegistry × World O
  unfolding run_calls
  resolve_calls true tcs registry w =
      run_calls server.host server.codec (server.builtins user_id) tcs registry w
  resolve_calls false tcs registry w = (map (λ tc. error_for tc.id denied) tcs, registry, w)

  module _ (config : ServerConfig) where
    -- The context is read before the calls are executed.
    unfoldable pub resume_approval : Bool → List ToolCall → SkillRegistry → World O → Handled
    unfolding resolve_calls after_resume Agent.resume load_messages build_system_prompt load_skills
    resume_approval approve tcs registry w =
        let (tool_results, registry', w1) = resolve_calls approve tcs registry w in
        after_resume approve (
          Agent.resume server.host (agent_of server config)
            (record {
              system_prompt = build_system_prompt user_id (load_skills user_id w.db) none w.db;
              messages = load_messages server.json user_id 50 w.db;
              tools =
                  Executor.all_tools server.host server.codec (server.builtins user_id) registry;
            })
            tool_results w1)

    unfoldable pub with_registry : Bool → List ToolCall → World O → Handled
    unfolding resume_approval
    with_registry approve tcs w = elim (from_rows server.tools_json (load_skills user_id w.db)) [
      | err e ↦ (err (agent_error e), w)
      | ok registry ↦ resume_approval approve tcs registry w
    ]

    unfoldable pub resolve_all : Bool → World O → Handled
    unfolding with_registry approvals_of calls_of clear_approvals
    resolve_all approve w = elim (calls_of server.json (approvals_of user_id w.db)) [
      | none ↦ (err panicked, w)
      | some tcs ↦ with_registry approve tcs (record w { db = clear_approvals user_id w.db })
    ]

    unfoldable pub handle_approval : ℕ → Bool → World O → Handled
    unfolding resolve_all
    handle_approval approval_id approve w =
        elim (find (λ r. r.id == approval_id && str_eq r.user_id user_id) w.db.pending_approvals) [
          | none ↦ (err (not_found approval_id), w)
          | some row ↦ resolve_all approve w
        ]
