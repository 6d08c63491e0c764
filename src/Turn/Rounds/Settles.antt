-- ===== src/Turn/Rounds/Settles.antt =====
-- What a run of the agent leaves where the model asks for tools a number of times at most.
use edgeclaw.Prelude.{
  ℕ, zero, suc, ◌≤◌, ◌<◌, String, List, [], ◌∷◌, Bool, true, false, Option, arith, map, leb,
  Bool-cases, inl, inr, not,
}
use edgeclaw.Types.{
  Message, ContentBlock, AgentContext, ToolDefinition, ToolCall, ToolResult, AgentRunResult,
  AgentError, Result, ok, err, from_tool_result, text,
}
use edgeclaw.Host
use edgeclaw.Host.{LlmResponse, StopReason}
use edgeclaw.Llm.{send_message}
use edgeclaw.Agent
use edgeclaw.Agent.{
  Loop, Next, finish, again, agent_loop, round, on_reply, on_response, on_end_turn, on_max_tokens,
  on_tool_use, push, assistant_message, user_message, start,
}
use edgeclaw.Turn.Calls.{settled}
use edgeclaw.Turn.Rounds.Idle.{Idle, ≤_trans, run_call_rank, may_run_rank, report_rank}
use edgeclaw.Executor.{check_permission}
use edgeclaw.Skills.{SkillRegistry}
use edgeclaw.Turn.{
  ServerConfig, ApprovalMode, Server, World, agent_of, build_llm_config, resume_turn, run_call,
  may_run, process_call, process_calls, tool_executed, Settled,
}

module _ {O : Type 0} (server : Server O) (config : ServerConfig) (user_id : String)
    (mode : ApprovalMode (World O)) (rank : O → ℕ) where
  -- An answer that asks for tools takes from the rank, and no other adds to it. A failed request ends the turn.
  abbrev pub Wearied : ℕ → Result LlmResponse AgentError × World O → Type 0
  Wearied k (err e, w) = Unit {0}
  Wearied k (ok response, w) = elim response.stop_reason [
    | Host.tool_use ↦ rank w.outside < k
    | Host.end_turn ↦ rank w.outside ≤ k
    | Host.max_tokens ↦ rank w.outside ≤ k
    | Host.stop_sequence ↦ rank w.outside ≤ k
  ]

  -- The model asks for tools as often as the rank says, at most, whatever it is sent.
  abbrev pub Wearies : Type 0
  Wearies =
      (system : String) (messages : List Message) (tools : List ToolDefinition) (w : World O)
      → Wearied (rank w.outside)
          (send_message server.host (build_llm_config config) system messages tools w)

  -- Where calls are left, the rank is below a bound.
  abbrev pub Below : ℕ → List ToolCall → World O → Type 0
  Below k [] w = Unit {0}
  Below k (tc ∷ tcs) w = rank w.outside < k

  abbrev pub Settles : ℕ → Result AgentRunResult AgentError × World O → Type 0
  Settles k (err e, w) = Unit {0}
  Settles k (ok r, w) = Below k r.pending_tool_calls w

  Below-more : (j k : ℕ) (l : List ToolCall) (w : World O) → j ≤ k → Below j l w → Below k l w
  Below-more j k [] w h b = tt
  Below-more j k (tc ∷ tcs) w h b = omega arith

  pub Settles-more :
      (j k : ℕ) (x : Result AgentRunResult AgentError × World O) → j ≤ k → Settles j x → Settles k x
  Settles-more j k (err e, w) h s = tt
  Settles-more j k (ok r, w) h s = Below-more j k r.pending_tool_calls w h s

  Below-any : (k : ℕ) (l : List ToolCall) (w : World O) → rank w.outside < k → Below k l w
  Below-any k [] w h = tt
  Below-any k (tc ∷ tcs) w h = h

  -- After a round the agent is done, or goes on with no more rank.
  abbrev NextSettles : ℕ → Next × World O → Type 0
  NextSettles k (finish r, w) = Settles k (r, w)
  NextSettles k (again s, w) = rank w.outside ≤ k

  on_max_tokens-NextSettles :
      (k : ℕ) (s : Loop) (w : World O)
      → rank w.outside ≤ k
      → NextSettles k (on_max_tokens server.host (agent_of server config) s, w)
  unfolding on_max_tokens
  on_max_tokens-NextSettles k s w h = elim (Bool-cases (leb 3 s.continuations_used)) [
    | inl e ↦ rw e tt
    | inr e ↦ rw e h
  ]

  on_response-NextSettles :
      (k : ℕ) (s : Loop) (reason : StopReason) (content : List ContentBlock) (w : World O)
      → Wearied k (ok (record { stop_reason = reason; content = content }), w)
      → NextSettles k (
          on_response server.host
            (agent_of server config)
            s
            (record { stop_reason = reason; content = content })
            w)
  unfolding on_response on_tool_use on_end_turn
  on_response-NextSettles k s Host.end_turn content w h = tt
  on_response-NextSettles k s Host.max_tokens content w h =
      on_max_tokens-NextSettles k (push s (assistant_message content)) w h
  on_response-NextSettles k s Host.tool_use content w h = Below-any k _ w h
  on_response-NextSettles k s Host.stop_sequence content w h = tt

  on_reply-NextSettles :
      (k : ℕ) (s : Loop) (x : Result LlmResponse AgentError × World O)
      → Wearied k x
      → NextSettles k (on_reply server.host (agent_of server config) s x)
  unfolding on_reply
  on_reply-NextSettles k s (err e, w) h = tt
  on_reply-NextSettles k s (ok response, w) h =
      on_response-NextSettles k s response.stop_reason response.content w h

  module _ (wearies : Wearies) where
    round-NextSettles :
        (s : Loop) (w : World O)
        → NextSettles (rank w.outside) (round server.host (agent_of server config) s w)
    unfolding round
    round-NextSettles s w =
        on_reply-NextSettles (rank w.outside) s _
          (wearies s.ctx.system_prompt s.ctx.messages s.ctx.tools w)

    agent_loop-Settles :
        (n : ℕ) (s : Loop) (w : World O)
        → Settles (rank w.outside) (agent_loop server.host (agent_of server config) n s w)
    unfolding agent_loop
    agent_loop-Settles zero s w = tt
    agent_loop-Settles (suc n) s w =
        next (round server.host (agent_of server config) s w) (round-NextSettles s w)
          (λ t v. agent_loop-Settles n t v)
      where
        next :
            (x : Next × World O)
            → NextSettles (rank w.outside) x
            → ((t : Loop) (v : World O)
                → Settles (rank v.outside) (agent_loop server.host (agent_of server config) n t v))
            → Settles (rank w.outside) (elim x.0 [
              | finish r ↦ (r, x.1)
              | again t ↦ agent_loop server.host (agent_of server config) n t x.1
            ])
        next (finish r, v) h ih = h
        next (again t, v) h ih = Settles-more (rank v.outside) (rank w.outside) _ h (ih t v)

    pub run-Settles :
        (ctx : AgentContext) (message : String) (w : World O)
        → Settles (rank w.outside) (Agent.run server.host (agent_of server config) ctx message w)
    unfolding Agent.run
    run-Settles ctx message w =
        agent_loop-Settles 10
          (start server.host (agent_of server config) ctx (user_message (text message ∷ []))) w

    resume-Settles :
        (ctx : AgentContext) (trs : List ToolResult) (w : World O)
        → Settles (rank w.outside) (Agent.resume server.host (agent_of server config) ctx trs w)
    unfolding Agent.resume
    resume-Settles ctx trs w =
        agent_loop-Settles 10
          (start server.host (agent_of server config) ctx (user_message (map from_tool_result trs)))
          w

    pub resume_turn-Settles :
        (system_hint : Option String) (result : AgentRunResult) (trs : List ToolResult)
        (registry : SkillRegistry) (w : World O)
        → Settles
            (rank w.outside)
            (resume_turn server config user_id system_hint mode result trs registry w)
    unfolding resume_turn
    resume_turn-Settles system_hint result trs registry w = resume-Settles _ trs w

  module _ (idle : Idle server rank user_id mode) where
    abbrev server_settled : ToolCall → SkillRegistry → Bool × World O → Settled (World O)
    server_settled tc registry x =
        settled server.host server.codec (server.builtins user_id) mode tc registry x

    settled_rank :
        (tc : ToolCall) (registry : SkillRegistry) (x : Bool × World O)
        → rank (server_settled tc registry x).2.outside ≤ rank x.1.outside
    settled_rank tc registry (false, w) = omega arith
    settled_rank tc registry (true, w) =
        let y = run_call server.host server.codec (server.builtins user_id) tc registry w in
        omega (
          arith,
          run_call_rank server rank user_id mode idle tc registry w,
          report_rank server rank mode (tool_executed tc.name (not y.0.is_error)) y.2 idle.quiet,
        )

    process_call_rank :
        (tc : ToolCall) (registry : SkillRegistry) (w : World O)
        → rank
            (process_call server.host server.codec
              (server.builtins user_id)
              mode
              tc
              registry
              w).2.outside
          ≤ rank w.outside
    unfolding process_call
    process_call_rank tc registry w =
        let p = check_permission server.host server.codec (server.builtins user_id) tc in
        ≤_trans server rank (settled_rank tc registry (may_run mode p tc w))
          (may_run_rank server rank mode p tc w idle.quiet)

    pub process_calls_rank :
        (tcs : List ToolCall) (registry : SkillRegistry) (w : World O)
        → rank
            (process_calls server.host server.codec
              (server.builtins user_id)
              mode
              tcs
              registry
              w).2.outside
          ≤ rank w.outside
    unfolding process_calls
    process_calls_rank [] registry w = omega arith
    process_calls_rank (tc ∷ tcs) registry w =
        let x =
          process_call server.host server.codec (server.builtins user_id) mode tc registry w in
        omega (arith, process_call_rank tc registry w, process_calls_rank tcs x.1 x.2)
