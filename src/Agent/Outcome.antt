-- ===== src/Agent/Outcome.antt =====
-- How a run ends, and how many requests it makes.
use edgeclaw.Prelude.{
  ℕ, zero, suc, ◌+◌, ◌-◌, ◌≤◌, ◌<◌, String, ◌≡◌, refl, ap, ◌∙◌, inl, inr, Option, none, some, not,
  List, [], ◌∷◌, map, leb, ltb, arith, if◌then◌else◌, Bool-cases, retain, filter_map, All,
}
use edgeclaw.Prelude.Text.{◌<>◌}
use edgeclaw.Types.{
  ContentBlock, text, Message, ToolDefinition, ToolCall, ToolResult, AgentContext, AgentRunResult,
  AgentError, max_continuations_exceeded, max_iterations_exceeded, Result, ok, err, as_tool_call,
}
use edgeclaw.Host.{
  Host, HttpResponse, LlmResponse, StopReason, end_turn, tool_use, max_tokens, stop_sequence,
}
use edgeclaw.Llm.{send_message, receive, api_request, api_headers}
use edgeclaw.Agent.{
  Agent, Executor, Loop, Next, finish, again, push, user_message, assistant_message, continue_text,
  execute_or_error, execute_serial, execute_concurrent, execute_tools, on_max_tokens, on_tool_use,
  on_response, on_reply, round, agent_loop, run,
}

module _ {W : Type 0} (host : Host W) (agent : Agent W) where
  -- The model is cut off in every answer.
  abbrev pub AlwaysCut : Type 0
  AlwaysCut =
      (system : String) (messages : List Message) (tools : List ToolDefinition) (w : W)
      → (content : List ContentBlock) × (w' : W) × (send_message host agent.llm system messages
            tools w
          ≡ (ok (record { stop_reason = max_tokens; content = content }), w'))

  abbrev cut_result : ℕ → ℕ → Result AgentRunResult AgentError
  cut_result used n =
      if ltb (agent.max_continuations - used) n
      then err (max_continuations_exceeded agent.max_continuations)
      else err (max_iterations_exceeded agent.max_iterations)

  cut-round :
      AlwaysCut
      → (s : Loop) (w : W)
      → (t : Loop) × (w' : W) × (t.continuations_used ≡ s.continuations_used)
        × (round host agent s w ≡ (on_max_tokens host agent t, w'))
  unfolding round on_reply on_response
  cut-round cut s w =
      let (content, w', e) = cut s.ctx.system_prompt s.ctx.messages s.ctx.tools w in
      (push s (assistant_message content), w', refl, rw e)

  -- The variables with which a cut answer goes on.
  abbrev continued : Loop → Loop
  continued t =
      push (record t { continuations_used = t.continuations_used + 1 })
        (user_message (text continue_text ∷ []))

  on_max_tokens-full :
      (t : Loop)
      → agent.max_continuations ≤ t.continuations_used
      → on_max_tokens host agent t
        ≡ finish (err (max_continuations_exceeded agent.max_continuations))
  unfolding on_max_tokens
  on_max_tokens-full t h = ground arith

  on_max_tokens-room :
      (t : Loop)
      → t.continuations_used < agent.max_continuations
      → on_max_tokens host agent t ≡ again (continued t)
  unfolding on_max_tokens
  on_max_tokens-room t h = ground arith

  abbrev pub after_round : ℕ → Next × W → Result AgentRunResult AgentError × W
  after_round n x = elim x.0 [ finish r ↦ (r, x.1) | again t ↦ agent_loop host agent n t x.1 ]

  pub agent_loop-finish :
      (n : ℕ) (s : Loop) (w w' : W) (r : Result AgentRunResult AgentError)
      → round host agent s w ≡ (finish r, w')
      → agent_loop host agent (suc n) s w ≡ (r, w')
  unfolding agent_loop
  agent_loop-finish n s w w' r e = ap (after_round n) e

  agent_loop-again :
      (n : ℕ) (s t : Loop) (w w' : W)
      → round host agent s w ≡ (again t, w')
      → agent_loop host agent (suc n) s w ≡ agent_loop host agent n t w'
  unfolding agent_loop
  agent_loop-again n s t w w' e = ap (after_round n) e

  cut-agent_loop :
      AlwaysCut
      → (n : ℕ) (s : Loop) (w : W) → s.continuations_used ≤ agent.max_continuations
      → (agent_loop host agent n s w).0 ≡ cut_result s.continuations_used n
  cut-agent_loop cut zero s w h = unfold agent_loop in ground arith
  cut-agent_loop cut (suc n) s w h =
      let (t, w', u, e) = cut-round cut s w in
      elim (Bool-cases (leb agent.max_continuations t.continuations_used)) [
        | inl full ↦
            rw
              (agent_loop-finish n s w w' _
                (e ∙ ap (λ x. (x, w')) (on_max_tokens-full t (ground arith))))
              (ground arith)
        | inr room ↦
            rw
              (agent_loop-again n s (continued t) w w'
                (e ∙ ap (λ x. (x, w')) (on_max_tokens-room t (ground arith))))
              (cut-agent_loop cut n (continued t) w' (ground arith) ∙ ground arith)
      ]

  -- If the model is cut off in every answer, a run ends with an error: the limit on continuations
  -- where it is below the one on rounds, and else the latter.
  pub run_cut :
      AlwaysCut
      → (ctx : AgentContext) (message : String) (w : W)
      → (run host agent ctx message w).0 ≡ (
          if ltb agent.max_continuations agent.max_iterations
          then err (max_continuations_exceeded agent.max_continuations)
          else err (max_iterations_exceeded agent.max_iterations))
  unfolding run
  run_cut cut ctx message w =
      cut-agent_loop cut agent.max_iterations _ w (omega arith) ∙ ground arith

  -- A cost that only requests have, one each at most.
  pub record CountsPosts (cost : W → ℕ) : Type 0 where
    pub post :
        (url : String) (headers : List (String × String)) (body : String) (w : W)
        → cost (host.post url headers body w).1 ≤ suc (cost w)
    pub execute :
        (executor : Executor W) (tc : ToolCall) (w : W)
        → agent.tool_executor ≡ some executor
        → cost (executor.execute tc w).1 ≡ cost w
    pub join_all :
        (fs : List (W → ToolResult × W)) (w : W)
        → All (λ f. (v : W) → cost (f v).1 ≡ cost v) fs
        → cost (host.join_all fs w).1 ≡ cost w

  module _ (cost : W → ℕ) (counts : CountsPosts cost) where
    receive-cost : (r : Result HttpResponse AgentError × W) → (receive host r).1 ≡ r.1
    unfolding receive
    receive-cost (ok a, w) = refl
    receive-cost (err e, w) = refl

    send_message-cost :
        (system : String) (messages : List Message) (tools : List ToolDefinition) (w : W)
        → cost (send_message host agent.llm system messages tools w).1 ≤ suc (cost w)
    unfolding send_message
    send_message-cost system messages tools w =
        go (host.to_vec (api_request agent.llm system messages tools)) refl
      where
        go :
            (r : Result String String)
            → host.to_vec (api_request agent.llm system messages tools) ≡ r
            → cost (send_message host agent.llm system messages tools w).1 ≤ suc (cost w)
        go (ok body) e =
            rw (e, send_message)
              (omega (
                arith,
                counts.post (agent.llm.base_url <> "/v1/messages") (api_headers agent.llm) body w,
                ap cost (
                    receive-cost (
                      host.post (agent.llm.base_url <> "/v1/messages") (api_headers agent.llm) body
                        w)),
              ))
        go (err x) e = rw (e, send_message) (omega arith)

    module _ (executor : Executor W) (used : agent.tool_executor ≡ some executor) where
      execute_or_error-cost :
          (tc : ToolCall) (w : W) → cost (execute_or_error executor tc w).1 ≡ cost w
      unfolding execute_or_error
      execute_or_error-cost tc w = counts.execute executor tc w used

      execute_serial-cost :
          (tcs : List ToolCall) (w : W) → cost (execute_serial executor tcs w).1 ≡ cost w
      unfolding execute_serial
      execute_serial-cost [] w = refl
      execute_serial-cost (tc ∷ tcs) w =
          execute_serial-cost tcs (execute_or_error executor tc w).1 ∙ execute_or_error-cost tc w

      futures-cost :
          (tcs : List ToolCall)
          → All (λ f. (v : W) → cost (f v).1 ≡ cost v) (map (execute_or_error executor) tcs)
      futures-cost [] = tt
      futures-cost (tc ∷ tcs) = (execute_or_error-cost tc, futures-cost tcs)

      execute_tools-cost :
          (tcs : List ToolCall) (w : W) → cost (execute_tools host executor tcs w).1 ≡ cost w
      unfolding execute_tools
      execute_tools-cost tcs w =
          execute_serial-cost (retain (λ tc. not (executor.is_concurrent_safe tc)) tcs)
            (execute_concurrent host executor safe w).1
          ∙ concurrent safe
        where
          safe : List ToolCall
          safe = retain executor.is_concurrent_safe tcs

          concurrent : (l : List ToolCall) → cost (execute_concurrent host executor l w).1 ≡ cost w
          concurrent [] = unfold execute_concurrent in refl
          concurrent (tc ∷ l) =
              unfold execute_concurrent in counts.join_all _ w (futures-cost (tc ∷ l))

    on_tool_use-cost :
        (ex : Option (Executor W)) (s : Loop) (content : List ContentBlock) (w : W)
        → agent.tool_executor ≡ ex
        → cost (on_tool_use host agent s content w).1 ≡ cost w
    unfolding on_tool_use
    on_tool_use-cost none s content w e = rw (e, on_tool_use)
    on_tool_use-cost (some executor) s content w e =
        rw (e, on_tool_use) (execute_tools-cost executor e (filter_map as_tool_call content) w)

    on_response-cost :
        (reason : StopReason) (s : Loop) (response : LlmResponse) (w : W)
        → response.stop_reason ≡ reason
        → cost (on_response host agent s response w).1 ≡ cost w
    unfolding on_response
    on_response-cost end_turn s response w e = rw (e, on_response)
    on_response-cost max_tokens s response w e = rw (e, on_response)
    on_response-cost stop_sequence s response w e = rw (e, on_response)
    on_response-cost tool_use s response w e =
        rw (e, on_response) (on_tool_use-cost agent.tool_executor _ response.content w refl)

    on_reply-cost :
        (s : Loop) (reply : Result LlmResponse AgentError × W)
        → cost (on_reply host agent s reply).1 ≡ cost reply.1
    unfolding on_reply
    on_reply-cost s (ok response, w) = on_response-cost response.stop_reason s response w refl
    on_reply-cost s (err e, w) = refl

    agent_loop-cost : (n : ℕ) (s : Loop) (w : W) → cost (agent_loop host agent n s w).1 ≤ cost w + n
    unfolding agent_loop
    agent_loop-cost zero s w = omega arith
    agent_loop-cost (suc n) s w =
        bound (round host agent s w)
          (unfold round in
            omega (
              arith,
              on_reply-cost s
                  (send_message host agent.llm s.ctx.system_prompt s.ctx.messages s.ctx.tools w),
              send_message-cost s.ctx.system_prompt s.ctx.messages s.ctx.tools w,
            ))
          (λ t. agent_loop-cost n t (round host agent s w).1)
      where
        bound :
            (x : Next × W)
            → cost x.1 ≤ suc (cost w)
            → ((t : Loop) → cost (agent_loop host agent n t x.1).1 ≤ cost x.1 + n)
            → cost (after_round n x).1 ≤ cost w + suc n
        bound (finish r, w') h ih = omega arith
        bound (again t, w') h ih = omega (arith, ih t)

    -- A run makes at most `max_iterations` requests, however the model and the tools answer.
    pub run-cost :
        (ctx : AgentContext) (message : String) (w : W)
        → cost (run host agent ctx message w).1 ≤ cost w + agent.max_iterations
    unfolding run
    run-cost ctx message w = agent_loop-cost agent.max_iterations _ w
