-- ===== src/Turn.antt =====
-- crates/edgeclaw-server/src/agent.rs: `run_agent_turn`, which runs the agent without an executor and
-- has the server check and execute the calls, and `handle_approval`.
pub mod Calls
pub mod Rounds
pub mod Approval
mod Tests
use edgeclaw.Prelude.{
  ℕ, zero, suc, String, Option, none, some, Bool, true, false, not, List, [], ◌∷◌, ◌++◌, map, any,
  filter_map, find, retain, str_eq, ◌==◌, ◌&&◌, if◌then◌else◌, unwrap_or, is_empty,
}
use edgeclaw.Prelude.Int.{ℤ}
use edgeclaw.Types.{
  Message, ToolCall, ToolResult, AgentContext, AgentRunResult, AgentError, PermissionCheck, allow,
  deny, requires_approval, Result, ok, err, error_for, and_then,
}
use edgeclaw.Soul.{compose_system_prompt}
use edgeclaw.Host.{Host}
use edgeclaw.Llm.{LlmConfig}
use edgeclaw.Agent
use edgeclaw.Agent.{Agent, new_agent, settle}
use edgeclaw.Mcp.{Codec}
use edgeclaw.Skills.{SkillRow, SkillRegistry, ToolsJson, from_rows}
use edgeclaw.Database.{
  Tables, Json, ensure_user, load_messages, persist_messages, persist_pending_approval, load_soul,
  with_hint, build_system_prompt, load_skills, ApprovalRow, reverse,
}
use edgeclaw.Executor
use edgeclaw.Executor.{BuiltinExecutor, check_permission}

-- server.rs, `ServerConfig`, as far as a turn uses it.
pub record ServerConfig : Type 0 where
  pub anthropic_api_key : Option String
  pub default_model : Option String
  pub anthropic_base_url : String

unfoldable pub build_llm_config : ServerConfig → LlmConfig
build_llm_config config = record {
  api_key = unwrap_or config.anthropic_api_key "";
  model = unwrap_or config.default_model "claude-sonnet-4-20250514";
  base_url = config.anthropic_base_url;
  max_tokens = 4096;
}

-- session.rs.
pub data ServerMessage : Type 0 where
  session_started : (session_id : String) → ServerMessage
  agent_error : (error : String) → ServerMessage
  agent_response : (answer : Option String) → ServerMessage
  confirmation_prompt : (request_id : String) → List ToolCall → List String → ServerMessage
  tool_executed : (tool_name : String) → (success : Bool) → ServerMessage

-- A session's channels: a fresh request id, the map of pending approvals, the messages to the client,
-- and the wait of at most five minutes, which is `none` on a timeout and on a channel that is dropped.
pub record Channel (W : Type 0) : Type 0 where
  pub new_request_id : W → String × W
  pub insert_pending : String → W → W
  pub send : ServerMessage → W → W
  pub wait : String → W → Option Bool × W

pub data ApprovalMode (W : Type 0) : Type 0 where
  auto_approve : ApprovalMode W
  session : Channel W → ApprovalMode W

abbrev pub denied : String
denied = "Permission to use tool was denied"

module _ {W : Type 0} where
  unfoldable pub ask : Channel W → ToolCall → String → W → Bool × W
  ask channel tc reason w =
      let (id, w1) = channel.new_request_id w in
      let w2 =
        channel.send (confirmation_prompt id (tc ∷ []) (reason ∷ []))
          (channel.insert_pending id w1) in
      let (answer, w3) = channel.wait id w2 in (unwrap_or answer false, w3)

  -- Whether the call is to be executed.
  unfoldable pub may_run : ApprovalMode W → PermissionCheck → ToolCall → W → Bool × W
  unfolding ask
  may_run auto_approve p tc w = (true, w)
  may_run (session channel) allow tc w = (true, w)
  may_run (session channel) (deny reason) tc w = ask channel tc reason w
  may_run (session channel) (requires_approval reason) tc w = ask channel tc reason w

  unfoldable pub report : ApprovalMode W → ServerMessage → W → W
  report auto_approve m w = w
  report (session channel) m w = channel.send m w

-- The result of one call, and the state behind it.
abbrev pub Settled : Type 0 → Type 0
Settled W = ToolResult × SkillRegistry × W

module _ {W : Type 0} (host : Host W) (codec : Codec) (executor : BuiltinExecutor W) where
  unfoldable pub run_call : ToolCall → SkillRegistry → W → Settled W
  unfolding Executor.execute
  run_call tc registry w =
      let (r, registry', w') = Executor.execute host codec executor tc registry w in
      (settle tc r, registry', w')

  unfoldable pub process_call : ApprovalMode W → ToolCall → SkillRegistry → W → Settled W
  unfolding may_run report run_call
  process_call mode tc registry w =
      let (approved, w1) = may_run mode (check_permission host codec executor tc) tc w in
      elim approved [
        | false ↦ (error_for tc.id denied, registry, w1)
        | true ↦
            let (tr, registry', w2) = run_call tc registry w1 in
            (tr, registry', report mode (tool_executed tc.name (not tr.is_error)) w2)
      ]

  unfoldable pub process_calls :
      ApprovalMode W → List ToolCall → SkillRegistry → W → List ToolResult × SkillRegistry × W
  unfolding process_call
  process_calls mode [] registry w = ([], registry, w)
  process_calls mode (tc ∷ tcs) registry w =
      let (tr, registry1, w1) = process_call mode tc registry w in
      let (trs, registry2, w2) = process_calls mode tcs registry1 w1 in (tr ∷ trs, registry2, w2)

  -- `handle_approval`: the results of all pending calls.
  unfoldable pub run_calls : List ToolCall → SkillRegistry → W → List ToolResult × SkillRegistry × W
  unfolding run_call
  run_calls [] registry w = ([], registry, w)
  run_calls (tc ∷ tcs) registry w =
      let (tr, registry1, w1) = run_call tc registry w in
      let (trs, registry2, w2) = run_calls tcs registry1 w1 in (tr ∷ trs, registry2, w2)

-- What a turn replies.
pub record TurnReply : Type 0 where
  pub answer : Option String
  pub pending_tool_calls : List ToolCall

-- The tables, and everything outside the program.
pub record World (O : Type 0) : Type 0 where
  pub db : Tables
  pub outside : O

-- What a turn is given: `clock` is `now_millis`, and `builtins` makes the built-in tools of a user.
pub record Server (O : Type 0) : Type 0 where
  pub host : Host (World O)
  pub codec : Codec
  pub tools_json : ToolsJson
  pub json : Json
  pub clock : World O → ℤ
  pub builtins : String → BuiltinExecutor (World O)

module _ {O : Type 0} (server : Server O) where
  abbrev pub agent_of : ServerConfig → Agent (World O)
  agent_of config = new_agent (build_llm_config config)

  abbrev pub store_messages : String → List Message → World O → World O
  store_messages user_id messages w = record w {
    db = persist_messages server.json user_id (server.clock w) messages w.db;
  }

  module _ (config : ServerConfig) (user_id : String) (system_hint : Option String)
      (mode : ApprovalMode (World O)) where
    -- The prompt when the agent is resumed.
    unfoldable pub resume_prompt : Tables → String
    unfolding with_hint load_soul compose_system_prompt
    resume_prompt db = with_hint system_hint (compose_system_prompt (load_soul user_id db))

    abbrev pub extended : AgentRunResult → AgentRunResult → AgentRunResult
    extended result resumed = record resumed {
      new_messages = result.new_messages ++ resumed.new_messages;
    }

    unfoldable pub resume_turn :
        AgentRunResult
        → List ToolResult
        → SkillRegistry
        → World O
        → Result AgentRunResult AgentError × World O
    unfolding resume_prompt Agent.resume load_messages
    resume_turn result tool_results registry w =
        Agent.resume server.host (agent_of config)
          (record {
            system_prompt = resume_prompt w.db;
            messages = load_messages server.json user_id 50 w.db ++ result.new_messages;
            tools = Executor.all_tools server.host server.codec (server.builtins user_id) registry;
          })
          tool_results w

    abbrev pub Outcome : Type 0
    Outcome = Option (Result AgentRunResult AgentError × World O)

    -- The loop of the turn: nothing bounds its rounds, and `none` is one that has not ended yet.
    unfoldable pub turn_loop : ℕ → AgentRunResult → SkillRegistry → World O → Outcome
    unfolding process_calls resume_turn
    turn_loop zero result registry w = none
    turn_loop (suc n) result registry w = elim result.pending_tool_calls [
      | [] ↦ some (ok result, w)
      | tc ∷ tcs ↦
          let (tool_results, registry', w1) =
            process_calls server.host server.codec (server.builtins user_id) mode (tc ∷ tcs)
              registry w in
          let (resumed, w2) = resume_turn result tool_results registry' w1 in
          elim resumed [
            | err e ↦ some (err e, w2)
            | ok r ↦ turn_loop n (extended result r) registry' w2
          ]
    ]

    -- Behind the loop: the messages are stored, and the client is told the answer.
    unfoldable pub finish_turn :
        Result AgentRunResult AgentError × World O → Result TurnReply AgentError × World O
    unfolding persist_messages report
    finish_turn (err e, w) = (err e, w)
    finish_turn (ok result, w) = (
      ok (record { answer = result.answer; pending_tool_calls = result.pending_tool_calls }),
      report mode (agent_response result.answer) (store_messages user_id result.new_messages w),
    )

    abbrev pub finish_loop : Outcome → Option (Result TurnReply AgentError × World O)
    finish_loop none = none
    finish_loop (some x) = some (finish_turn x)

    unfoldable pub after_first :
        ℕ
        → SkillRegistry
        → Result AgentRunResult AgentError × World O
        → Option (Result TurnReply AgentError × World O)
    unfolding turn_loop finish_turn
    after_first fuel registry (err e, w) = some (err e, w)
    after_first fuel registry (ok result, w) = finish_loop (turn_loop fuel result registry w)

    unfoldable pub first_run :
        ℕ → String → SkillRegistry → World O → Option (Result TurnReply AgentError × World O)
    unfolding after_first Agent.run load_messages build_system_prompt load_skills
    first_run fuel message registry w = after_first fuel registry (
        Agent.run server.host (agent_of config)
          (record {
            system_prompt = build_system_prompt user_id (load_skills user_id w.db) system_hint w.db;
            messages = load_messages server.json user_id 50 w.db;
            tools = Executor.all_tools server.host server.codec (server.builtins user_id) registry;
          })
          message w)

    unfoldable pub run_agent_turn :
        ℕ → String → World O → Option (Result TurnReply AgentError × World O)
    unfolding first_run ensure_user
    run_agent_turn fuel message w =
        let w1 = record w { db = ensure_user user_id (server.clock w) w.db } in
        elim (from_rows server.tools_json (load_skills user_id w1.db)) [
          | err e ↦ some (err e, w1)
          | ok registry ↦ first_run fuel message registry w1
        ]
