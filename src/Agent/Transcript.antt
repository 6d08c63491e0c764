-- ===== src/Agent/Transcript.antt =====
-- What a run that returns has added to the conversation.
use mathlib.Core.List.{Perm, append_assoc}
use edgeclaw.Prelude.{
  ℕ, zero, suc, ◌+◌, ◌*◌, ◌≤◌, String, ◌≡◌, refl, ap, ◌∙◌, ◌⊎◌, inl, inr, Option, none, some, List,
  [], ◌∷◌, ◌++◌, map, leb, length, arith, Bool-cases, find_map, filter_map,
}
use edgeclaw.Types.{
  user, assistant, ContentBlock, text, Message, ToolCall, ToolResult, AgentContext, AgentRunResult,
  AgentError, Result, ok, err, from_tool_result, as_tool_call, as_text,
}
use edgeclaw.Host.{
  Host, LlmResponse, StopReason, end_turn, tool_use, max_tokens, stop_sequence, JoinsInOrder,
}
use edgeclaw.Llm.{send_message}
use edgeclaw.Agent.{
  Agent, Executor, Loop, Next, finish, again, push, user_message, assistant_message, continue_text,
  execute_tools, on_max_tokens, on_tool_use, on_response, on_reply, round, agent_loop, start, run,
  resume,
}
use edgeclaw.Agent.Tools.{AnswersId, ids, answered_ids, answered_ids-results, execute_tools-perm}

-- The calls that a message asks for.
abbrev pub calls : Message → List ToolCall
calls m = filter_map as_tool_call m.content

-- A user's message behind an assistant's one: it asks to go on, or answers each of its calls once.
abbrev pub Replies : Message → Message → Type 0
Replies m k =
    (k ≡ user_message (text continue_text ∷ [])) ⊎ Perm (answered_ids k.content) (ids (calls m))

-- Rounds that went on: an assistant's message and a user's reply to it, in turns.
abbrev pub Rounds : List Message → Type 0
Rounds [] = Unit
Rounds (m ∷ []) = ⊥
Rounds (m ∷ k ∷ ms) = (m.role ≡ assistant) × (k.role ≡ user) × Replies m k × Rounds ms

module _ {W : Type 0} where
  -- The answer is the first text of the last message, or its calls are handed out unanswered.
  abbrev pub Concludes : Agent W → Message → AgentRunResult → Type 0
  Concludes agent m r =
      ((r.answer ≡ find_map as_text m.content) × (r.pending_tool_calls ≡ []))
      ⊎ ((agent.tool_executor ≡ none) × (r.answer ≡ none) × (r.pending_tool_calls ≡ calls m))

  -- What a result has of new messages behind `old`, after at most `n` rounds.
  abbrev pub Completes : Agent W → ℕ → List Message → Result AgentRunResult AgentError → Type 0
  Completes agent n old (err e) = Unit
  Completes agent n old (ok r) =
      (ms : List Message) × (m : Message) × (r.new_messages ≡ old ++ (ms ++ m ∷ []))
      × Rounds ms
      × (m.role ≡ assistant)
      × Concludes agent m r
      × (length ms + 2 ≤ 2 * n)

  -- An executor that puts ids on its results, if there is one.
  abbrev pub Lawful : Option (Executor W) → Type 0
  Lawful none = Unit
  Lawful (some executor) = AnswersId W executor

  abbrev RoundOk : Agent W → Loop → Next → Type 0
  RoundOk agent s (finish (err e)) = Unit
  RoundOk agent s (finish (ok r)) =
      (m : Message) × (r.new_messages ≡ s.new_messages ++ m ∷ [])
      × (m.role ≡ assistant)
      × Concludes agent m r
  RoundOk agent s (again t) =
      (m : Message) × (k : Message) × (t.new_messages ≡ (s.new_messages ++ m ∷ []) ++ k ∷ [])
      × (m.role ≡ assistant)
      × (k.role ≡ user)
      × Replies m k

  module _ (host : Host W) (joins : JoinsInOrder W host) (agent : Agent W) where
    tool_use-RoundOk :
        (ex : Option (Executor W)) (s : Loop) (content : List ContentBlock) (w : W)
        → agent.tool_executor ≡ ex
        → Lawful ex
        → RoundOk agent s (on_tool_use host agent (push s (assistant_message content)) content w).0
    unfolding on_tool_use
    tool_use-RoundOk none s content w e l =
        rw (e, on_tool_use) (assistant_message content, refl, refl, inr (refl, refl, refl))
    tool_use-RoundOk (some executor) s content w e l =
        rw (e, on_tool_use)
          (
            assistant_message content,
            _,
            refl,
            refl,
            refl,
            inr (
                rw
                  (answered_ids-results
                    (execute_tools host executor (filter_map as_tool_call content) w).0)
                  (execute_tools-perm executor l host joins _ w)),
          )

    response-RoundOk :
        (reason : StopReason) (s : Loop) (response : LlmResponse) (w : W)
        → Lawful agent.tool_executor
        → response.stop_reason ≡ reason
        → RoundOk agent s (on_response host agent s response w).0
    unfolding on_response
    response-RoundOk end_turn s response w l e =
        rw (e, on_response) (assistant_message response.content, refl, refl, inl (refl, refl))
    response-RoundOk tool_use s response w l e =
        rw (e, on_response) (tool_use-RoundOk agent.tool_executor s response.content w refl l)
    response-RoundOk stop_sequence s response w l e = rw (e, on_response) tt
    response-RoundOk max_tokens s response w l e =
        rw (e, on_response)
          (elim (Bool-cases (leb agent.max_continuations s.continuations_used)) [
            | inl full ↦ rw (full, on_max_tokens) tt
            | inr room ↦
                rw (room, on_max_tokens)
                  (assistant_message response.content, _, refl, refl, refl, inl refl)
          ])

    round-RoundOk :
        (s : Loop) (w : W) → Lawful agent.tool_executor → RoundOk agent s (round host agent s w).0
    unfolding round
    round-RoundOk s w l =
        reply-RoundOk (send_message host agent.llm s.ctx.system_prompt s.ctx.messages s.ctx.tools w)
      where
        reply-RoundOk :
            (reply : Result LlmResponse AgentError × W)
            → RoundOk agent s (on_reply host agent s reply).0
        reply-RoundOk (ok response, w') =
            unfold on_reply in response-RoundOk response.stop_reason s response w' l refl
        reply-RoundOk (err e, w') = unfold on_reply in tt

    Completes-again :
        (n : ℕ) (s t : Loop) (r : Result AgentRunResult AgentError)
        → RoundOk agent s (again t)
        → Completes agent n t.new_messages r
        → Completes agent (suc n) s.new_messages r
    Completes-again n s t (err e) h c = tt
    Completes-again n s t (ok r) (m, k, new, am, uk, reply) (ms, last, e, rounds, al, con, len) = (
      m ∷ k ∷ ms,
      last,
      e
          ∙ ap (λ l. l ++ (ms ++ last ∷ [])) new
          ∙ append_assoc (s.new_messages ++ m ∷ []) (k ∷ []) _
          ∙ append_assoc s.new_messages (m ∷ []) _,
      (am, uk, reply, rounds),
      al,
      con,
      omega arith,
    )

    Completes-next :
        (n : ℕ) (s : Loop) (next : Next) (w : W)
        → RoundOk agent s next
        → ((t : Loop) → Completes agent n t.new_messages (agent_loop host agent n t w).0)
        → Completes agent
            (suc n)
            s.new_messages
            (elim next as (λ x. Result AgentRunResult AgentError × W) [
              | finish r ↦ (r, w)
              | again t ↦ agent_loop host agent n t w
            ]).0
    Completes-next n s (finish (err e)) w h ih = tt
    Completes-next n s (finish (ok r)) w (m, e, a, c) ih = ([], m, e, tt, a, c, omega arith)
    Completes-next n s (again t) w h ih = Completes-again n s t _ h (ih t)

    agent_loop-Completes :
        (n : ℕ) (s : Loop) (w : W)
        → Lawful agent.tool_executor
        → Completes agent n s.new_messages (agent_loop host agent n s w).0
    unfolding agent_loop
    agent_loop-Completes zero s w l = tt
    agent_loop-Completes (suc n) s w l =
        Completes-next n s (round host agent s w).0 (round host agent s w).1 (round-RoundOk s w l)
          (λ t. agent_loop-Completes n t (round host agent s w).1 l)

    -- If `run` returns a result, its new messages are the user's message, then rounds of an
    -- assistant's message and a reply that asks to go on or answers each of its tool calls exactly
    -- once, then an assistant's message. That one gives the answer, its first text, with no call
    -- pending; or, only where there is no executor, its tool calls, which are pending. There are
    -- at most two messages for each of the `max_iterations` rounds.
    pub run-Completes :
        (ctx : AgentContext) (message : String) (w : W)
        → Lawful agent.tool_executor
        → Completes agent agent.max_iterations
            (user_message (text message ∷ []) ∷ [])
            (run host agent ctx message w).0
    unfolding run
    run-Completes ctx message w l =
        agent_loop-Completes agent.max_iterations
          (start host agent ctx (user_message (text message ∷ []))) w l

    -- The same of `resume`, whose first message holds the results of the calls that were pending.
    pub resume-Completes :
        (ctx : AgentContext) (results : List ToolResult) (w : W)
        → Lawful agent.tool_executor
        → Completes agent agent.max_iterations
            (user_message (map from_tool_result results) ∷ [])
            (resume host agent ctx results w).0
    unfolding resume
    resume-Completes ctx results w l =
        agent_loop-Completes agent.max_iterations
          (start host agent ctx (user_message (map from_tool_result results))) w l
