-- ===== src/Agent.antt =====
-- crates/agent-core/src/agent.rs: the agent loop, `run` and `resume`.
pub mod Tools
pub mod Transcript
pub mod Outcome
mod Tests
use edgeclaw.Prelude.{
  ℕ, zero, suc, ◌+◌, String, Option, none, some, Bool, true, false, not, List, [], ◌∷◌, ◌++◌, map,
  leb, if◌then◌else◌, is_empty, retain, filter_map, find_map,
}
use edgeclaw.Prelude.Int.{pos}
use edgeclaw.Prelude.Text.{contains}
use edgeclaw.Types.{
  Role, user, assistant, ContentBlock, text, Message, ToolCall, ToolResult, AgentContext,
  AgentRunResult, AgentError, llm_request_failed, prompt_too_long, max_continuations_exceeded,
  max_iterations_exceeded, unexpected_stop_reason, Result, ok, err, error_for, display_error,
  from_tool_result, as_tool_call, as_text,
}
use edgeclaw.Host.{Host, Action, LlmResponse, end_turn, tool_use, max_tokens, stop_sequence}
use edgeclaw.Llm.{LlmConfig, send_message}

-- types.rs, the trait `ToolExecutor`.
pub record Executor (W : Type 0) : Type 0 where
  pub execute : ToolCall → Action W ToolResult
  pub is_concurrent_safe : ToolCall → Bool

pub record Agent (W : Type 0) : Type 0 where
  pub llm : LlmConfig
  pub max_iterations : ℕ
  pub max_continuations : ℕ
  pub tool_executor : Option (Executor W)

-- `Agent::new`.
abbrev pub new_agent : {W : Type 0} → LlmConfig → Agent W
new_agent llm = record {
  llm = llm;
  max_iterations = 10;
  max_continuations = 3;
  tool_executor = none;
}

-- `now_epoch` is the constant 0; the server overwrites the time when it stores a message.
abbrev pub user_message : List ContentBlock → Message
user_message content = record { role = user; content = content; created_at = pos 0 }

abbrev pub assistant_message : List ContentBlock → Message
assistant_message content = record { role = assistant; content = content; created_at = pos 0 }

abbrev pub continue_text : String
continue_text = "Continue from where you left off."

-- The variables of `agent_loop`.
pub record Loop : Type 0 where
  pub ctx : AgentContext
  pub new_messages : List Message
  pub continuations_used : ℕ

-- A message goes to the context and to the new messages.
abbrev pub push : Loop → Message → Loop
push s m = record s {
  ctx = record s.ctx { messages = s.ctx.messages ++ m ∷ [] };
  new_messages = s.new_messages ++ m ∷ [];
}

-- One round returns, or goes on with new variables.
pub data Next : Type 0 where
  finish : Result AgentRunResult AgentError → Next
  again : Loop → Next

-- `unwrap_or_else(|e| ToolResult::error_for(id, e))`.
unfoldable pub settle : ToolCall → Result ToolResult AgentError → ToolResult
settle tc (ok t) = t
settle tc (err e) = error_for tc.id (display_error e)

module _ {W : Type 0} where
  unfoldable pub execute_or_error : Executor W → ToolCall → W → ToolResult × W
  unfolding settle
  execute_or_error executor tc w = let (r, w') = executor.execute tc w in (settle tc r, w')

  unfoldable pub execute_serial : Executor W → List ToolCall → W → List ToolResult × W
  unfolding execute_or_error
  execute_serial executor [] w = ([], w)
  execute_serial executor (tc ∷ tcs) w =
      let (r, w') = execute_or_error executor tc w in
      let (rs, w'') = execute_serial executor tcs w' in (r ∷ rs, w'')

module _ {W : Type 0} (host : Host W) where
  unfoldable pub execute_concurrent : Executor W → List ToolCall → W → List ToolResult × W
  unfolding execute_or_error
  execute_concurrent executor [] w = ([], w)
  execute_concurrent executor (tc ∷ tcs) w =
      host.join_all (map (execute_or_error executor) (tc ∷ tcs)) w

  -- The calls that are safe together run first, the others after them one by one.
  unfoldable pub execute_tools : Executor W → List ToolCall → W → List ToolResult × W
  unfolding execute_concurrent execute_serial
  execute_tools executor tool_calls w =
      let concurrent = retain executor.is_concurrent_safe tool_calls in
      let serial = retain (λ tc. not (executor.is_concurrent_safe tc)) tool_calls in
      let (rs, w') = execute_concurrent executor concurrent w in
      let (ss, w'') = execute_serial executor serial w' in (rs ++ ss, w'')

  module _ (agent : Agent W) where
    -- `StopReason::EndTurn`.
    unfoldable pub on_end_turn : Loop → List ContentBlock → Next
    on_end_turn s content = finish (
        ok (record {
          new_messages = s.new_messages;
          answer = find_map as_text content;
          pending_tool_calls = [];
        }))

    -- `StopReason::MaxTokens`. The count stays below `max_continuations`, so it does not overflow.
    unfoldable pub on_max_tokens : Loop → Next
    on_max_tokens s =
        if leb agent.max_continuations s.continuations_used
        then finish (err (max_continuations_exceeded agent.max_continuations))
        else again (
            push (record s { continuations_used = s.continuations_used + 1 })
              (user_message (text continue_text ∷ [])))

    -- `StopReason::ToolUse`.
    unfoldable pub on_tool_use : Loop → List ContentBlock → W → Next × W
    unfolding execute_tools
    on_tool_use s content w = elim agent.tool_executor [
      | none ↦ (
        finish (
            ok (record {
              new_messages = s.new_messages;
              answer = none;
              pending_tool_calls = filter_map as_tool_call content;
            })),
        w,
      )
      | some executor ↦
          let (results, w') = execute_tools executor (filter_map as_tool_call content) w in
          (again (push s (user_message (map from_tool_result results))), w')
    ]

    -- The assistant's message is pushed, then the stop reason decides.
    unfoldable pub on_response : Loop → LlmResponse → W → Next × W
    unfolding on_end_turn on_max_tokens on_tool_use
    on_response s response w =
        let s' = push s (assistant_message response.content) in
        elim response.stop_reason [
          | end_turn ↦ (on_end_turn s' response.content, w)
          | max_tokens ↦ (on_max_tokens s', w)
          | tool_use ↦ on_tool_use s' response.content w
          | stop_sequence ↦ (finish (err (unexpected_stop_reason "stop_sequence")), w)
        ]

    -- The errors of `send_message`: one kind of message becomes `PromptTooLong`.
    unfoldable pub llm_error : AgentError → AgentError
    llm_error (llm_request_failed msg) =
        if contains "prompt is too long" msg then prompt_too_long else llm_request_failed msg
    llm_error e = e

    unfoldable pub on_reply : Loop → Result LlmResponse AgentError × W → Next × W
    unfolding on_response llm_error
    on_reply s (ok response, w) = on_response s response w
    on_reply s (err e, w) = (finish (err (llm_error e)), w)

    unfoldable pub round : Loop → W → Next × W
    unfolding on_reply send_message
    round s w =
        on_reply s (send_message host agent.llm s.ctx.system_prompt s.ctx.messages s.ctx.tools w)

    -- `for _ in 0..self.max_iterations`, on the rounds that are left.
    unfoldable pub agent_loop : ℕ → Loop → W → Result AgentRunResult AgentError × W
    unfolding round
    agent_loop zero s w = (err (max_iterations_exceeded agent.max_iterations), w)
    agent_loop (suc n) s w =
        let (next, w') = round s w in
        elim next [ finish r ↦ (r, w') | again s' ↦ agent_loop n s' w' ]

    abbrev pub start : AgentContext → Message → Loop
    start ctx m = record {
      ctx = record ctx { messages = ctx.messages ++ m ∷ [] };
      new_messages = m ∷ [];
      continuations_used = 0;
    }

    unfoldable pub run : AgentContext → String → Action W AgentRunResult
    unfolding agent_loop
    run ctx message = agent_loop agent.max_iterations (start ctx (user_message (text message ∷ [])))

    unfoldable pub resume : AgentContext → List ToolResult → Action W AgentRunResult
    unfolding agent_loop
    resume ctx tool_results =
        agent_loop agent.max_iterations
          (start ctx (user_message (map from_tool_result tool_results)))
