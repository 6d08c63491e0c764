-- ===== src/Turn/Rounds.antt =====
-- How the rounds of a turn end, or do not.
pub mod Idle
pub mod Settles
pub mod Ends
use edgeclaw.Prelude.{
  ℕ, zero, suc, ◌+◌, String, ◌≡◌, refl, sym, ap, subst, ◌∙◌, Option, none, some, List, [], ◌∷◌,
  ◌++◌, filter_map, map, arith,
}
use edgeclaw.Types.{
  Message, ToolDefinition, ToolCall, ToolResult, AgentContext, AgentRunResult, AgentError, Result,
  ok, err, ContentBlock, text, from_tool_result, as_tool_call,
}
use edgeclaw.Host
use edgeclaw.Host.{Host, LlmResponse}
use edgeclaw.Llm.{send_message}
use edgeclaw.Agent
use edgeclaw.Agent.{
  Agent, Loop, agent_loop, assistant_message, user_message, round, on_reply, on_response,
  on_tool_use, start,
}
use edgeclaw.Agent.Outcome.{agent_loop-finish}
use edgeclaw.Skills.{SkillRegistry, from_rows}
use edgeclaw.Database.{ensure_user, load_skills}
use edgeclaw.Turn.{
  ServerConfig, ApprovalMode, Server, World, agent_of, build_llm_config, turn_loop, after_first,
  first_run, finish_loop, run_agent_turn, resume_turn, process_calls, extended, Outcome,
}

module _ {O : Type 0} (server : Server O) (config : ServerConfig) (user_id : String)
    (system_hint : Option String) (mode : ApprovalMode (World O)) where
  abbrev loop :
      ℕ → AgentRunResult → SkillRegistry → World O → Outcome server config user_id system_hint mode
  loop n result registry w = turn_loop server config user_id system_hint mode n result registry w

  abbrev after_resume :
      ℕ
      → AgentRunResult
      → SkillRegistry
      → Result AgentRunResult AgentError × World O
      → Outcome server config user_id system_hint mode
  after_resume n result registry (resumed, w) = elim resumed [
    | err e ↦ some (err e, w)
    | ok r ↦ loop n (extended server config user_id system_hint mode result r) registry w
  ]

  abbrev after_calls :
      ℕ
      → AgentRunResult
      → List ToolResult × SkillRegistry × World O
      → Outcome server config user_id system_hint mode
  after_calls n result (tool_results, registry, w) =
      after_resume n result registry
        (resume_turn server config user_id system_hint mode result tool_results registry w)

  abbrev calls : List ToolCall → SkillRegistry → World O → List ToolResult × SkillRegistry × World O
  calls tcs registry w =
      process_calls server.host server.codec (server.builtins user_id) mode tcs registry w

  loop-done :
      (n : ℕ) (result : AgentRunResult) (registry : SkillRegistry) (w : World O)
      → result.pending_tool_calls ≡ []
      → loop (suc n) result registry w ≡ some (ok result, w)
  unfolding turn_loop
  loop-done n result registry w e = simp (e, turn_loop)

  loop-round :
      (n : ℕ) (result : AgentRunResult) (registry : SkillRegistry) (w : World O) (tc : ToolCall)
      (tcs : List ToolCall)
      → result.pending_tool_calls ≡ tc ∷ tcs
      → loop (suc n) result registry w ≡ after_calls n result (calls (tc ∷ tcs) registry w)
  unfolding turn_loop
  loop-round n result registry w tc tcs e = rw (e, turn_loop) refl

  module _ (x : Result AgentRunResult AgentError × World O) where
    after_resume-more :
        (n : ℕ) (result : AgentRunResult) (registry : SkillRegistry)
        (y : Result AgentRunResult AgentError × World O)
        → ((r : AgentRunResult) (w : World O)
            → loop n r registry w ≡ some x
            → loop (suc n) r registry w ≡ some x)
        → after_resume n result registry y ≡ some x
        → after_resume (suc n) result registry y ≡ some x
    after_resume-more n result registry (err e, w) ih h = h
    after_resume-more n result registry (ok r, w) ih h =
        ih (extended server config user_id system_hint mode result r) w h

    loop-suc :
        (n : ℕ) (result : AgentRunResult) (registry : SkillRegistry) (w : World O)
        → loop n result registry w ≡ some x
        → loop (suc n) result registry w ≡ some x
    unfolding turn_loop
    loop-suc zero result registry w h = cc
    loop-suc (suc n) result registry w h =
        go result.pending_tool_calls refl (λ reg r v. loop-suc n r reg v)
      where
        go :
            (l : List ToolCall)
            → result.pending_tool_calls ≡ l
            → ((reg : SkillRegistry) (r : AgentRunResult) (v : World O)
                → loop n r reg v ≡ some x
                → loop (suc n) r reg v ≡ some x)
            → loop (suc (suc n)) result registry w ≡ some x
        go [] e ih =
            loop-done (suc n) result registry w e ∙ sym (loop-done n result registry w e) ∙ h
        go (tc ∷ tcs) e ih =
            let (trs, reg, v) = calls (tc ∷ tcs) registry w in
            loop-round (suc n) result registry w tc tcs e
            ∙ after_resume-more n result reg
                (resume_turn server config user_id system_hint mode result trs reg v) (ih reg)
                (sym (loop-round n result registry w tc tcs e) ∙ h)

    -- A turn's loop that ends within some rounds ends in the same way if it may take more.
    pub turn_loop-more :
        (m n : ℕ) (result : AgentRunResult) (registry : SkillRegistry) (w : World O)
        → turn_loop server config user_id system_hint mode n result registry w ≡ some x
        → turn_loop server config user_id system_hint mode (m + n) result registry w ≡ some x
    turn_loop-more zero n result registry w h =
        subst (λ k. loop k result registry w ≡ some x) (omega arith) h
    turn_loop-more (suc m) n result registry w h =
        subst (λ k. loop k result registry w ≡ some x) (omega arith)
          (loop-suc (m + n) result registry w (turn_loop-more m n result registry w h))

  -- Every answer of the model asks for a tool.
  abbrev pub AlwaysAsks : Type 0
  AlwaysAsks =
      (system : String) (messages : List Message) (tools : List ToolDefinition) (w : World O)
      → (content : List ContentBlock) × (w' : World O) × (tc : ToolCall) × (tcs : List ToolCall)
        × (filter_map as_tool_call content ≡ tc ∷ tcs)
        × (send_message server.host (build_llm_config config) system messages tools w
            ≡ (ok (record { stop_reason = Host.tool_use; content = content }), w'))

  -- What the agent gives then: it returns at its first request, with the calls.
  abbrev Asked : Result AgentRunResult AgentError × World O → Type 0
  Asked x =
      (r : AgentRunResult) × (w' : World O) × (tc : ToolCall) × (tcs : List ToolCall)
      × (r.pending_tool_calls ≡ tc ∷ tcs)
      × (x ≡ (ok r, w'))

  agent_loop-asks :
      AlwaysAsks
      → (n : ℕ) (s : Loop) (w : World O)
      → Asked (agent_loop server.host (agent_of server config) (suc n) s w)
  agent_loop-asks asks n s w =
      let (content, w', tc, tcs, c, e) = asks s.ctx.system_prompt s.ctx.messages s.ctx.tools w in
      (
        record {
          new_messages = s.new_messages ++ assistant_message content ∷ [];
          answer = none;
          pending_tool_calls = filter_map as_tool_call content;
        },
        w',
        tc,
        tcs,
        c,
        agent_loop-finish server.host (agent_of server config) n s w w' _
            (unfold round on_reply on_response on_tool_use in rw e refl),
      )

  run-asks :
      AlwaysAsks
      → (ctx : AgentContext) (message : String) (w : World O)
      → Asked (Agent.run server.host (agent_of server config) ctx message w)
  unfolding Agent.run
  run-asks asks ctx message w =
      agent_loop-asks asks 9
        (start server.host (agent_of server config) ctx (user_message (text message ∷ []))) w

  resume-asks :
      AlwaysAsks
      → (ctx : AgentContext) (trs : List ToolResult) (w : World O)
      → Asked (Agent.resume server.host (agent_of server config) ctx trs w)
  unfolding Agent.resume
  resume-asks asks ctx trs w =
      agent_loop-asks asks 9
        (start server.host (agent_of server config) ctx (user_message (map from_tool_result trs))) w

  resume_turn-asks :
      AlwaysAsks
      → (result : AgentRunResult) (trs : List ToolResult) (registry : SkillRegistry) (w : World O)
      → Asked (resume_turn server config user_id system_hint mode result trs registry w)
  unfolding resume_turn
  resume_turn-asks asks result trs registry w = resume-asks asks _ trs w

  loop-asks :
      AlwaysAsks
      → (n : ℕ) (result : AgentRunResult) (registry : SkillRegistry) (w : World O) (tc : ToolCall)
        (tcs : List ToolCall)
      → result.pending_tool_calls ≡ tc ∷ tcs
      → loop n result registry w ≡ none
  unfolding turn_loop
  loop-asks asks zero result registry w tc tcs e = refl
  loop-asks asks (suc n) result registry w tc tcs e =
      let (trs, reg, v) = calls (tc ∷ tcs) registry w in
      let (r, w', tc', tcs', c, q) = resume_turn-asks asks result trs reg v in
      loop-round n result registry w tc tcs e
      ∙ ap (after_resume n result reg) q
      ∙ loop-asks asks n (extended server config user_id system_hint mode result r) reg w' tc' tcs'
          c

  first-asks :
      (fuel : ℕ) (registry : SkillRegistry) (x : Result AgentRunResult AgentError × World O)
      → AlwaysAsks
      → Asked x
      → after_first server config user_id system_hint mode fuel registry x ≡ none
  unfolding after_first
  first-asks fuel registry x asks (r, w', tc, tcs, c, q) =
      ap (after_first server config user_id system_hint mode fuel registry) q
      ∙ ap (finish_loop server config user_id system_hint mode)
          (loop-asks asks fuel r registry w' tc tcs c)

  -- While the model asks for tools in every answer, a turn does not end: the limit on the agent's
  -- iterations does not reach over its rounds.
  pub run_agent_turn-asks :
      AlwaysAsks
      → (fuel : ℕ) (message : String) (w : World O) (registry : SkillRegistry)
      → from_rows server.tools_json
          (load_skills user_id (ensure_user user_id (server.clock w) w.db))
        ≡ ok registry
      → run_agent_turn server config user_id system_hint mode fuel message w ≡ none
  unfolding run_agent_turn first_run
  run_agent_turn-asks asks fuel message w registry e =
      rw (e, run_agent_turn) (first-asks fuel registry _ asks (run-asks asks _ message _))
