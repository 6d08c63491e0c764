-- ===== src/Turn/Rounds/Ends.antt =====
-- The rounds of a turn end where the model asks for tools a number of times at most.
use edgeclaw.Prelude.{
  ℕ, zero, suc, ◌+◌, String, ◌≡◌, refl, sym, ap, subst, Option, some, List, [], ◌∷◌, arith,
}
use edgeclaw.Types.{ToolCall, AgentRunResult, AgentError, Result, ok, err}
use edgeclaw.Skills.{SkillRegistry, from_rows}
use edgeclaw.Database.{load_skills, ensure_user}
use edgeclaw.Turn.{
  ServerConfig, ApprovalMode, Server, World, TurnReply, turn_loop, resume_turn, process_calls,
  extended, Outcome, finish_loop, finish_turn, after_first, first_run, run_agent_turn,
}
use edgeclaw.Turn.Rounds.{after_resume, loop-done, loop-round, turn_loop-more}
use edgeclaw.Turn.Rounds.Idle.{Idle}
use edgeclaw.Turn.Rounds.Settles.{
  Wearies, Below, Settles, Settles-more, run-Settles, resume_turn-Settles, process_calls_rank,
}

module _ {O : Type 0} (server : Server O) (config : ServerConfig) (user_id : String)
    (system_hint : Option String) (mode : ApprovalMode (World O)) (rank : O → ℕ) where
  abbrev Ends : Outcome server config user_id system_hint mode → Type 0
  Ends o = (x : Result AgentRunResult AgentError × World O) × (o ≡ some x)

  abbrev loop :
      ℕ → AgentRunResult → SkillRegistry → World O → Outcome server config user_id system_hint mode
  loop n result registry w = turn_loop server config user_id system_hint mode n result registry w

  after_resume-Ends :
      (n : ℕ) (result : AgentRunResult) (registry : SkillRegistry)
      (y : Result AgentRunResult AgentError × World O)
      → Settles server config user_id mode rank n y
      → ((r : AgentRunResult) (v : World O)
          → Below server config user_id mode rank n r.pending_tool_calls v
          → Ends (loop (suc n) r registry v))
      → Ends (after_resume server config user_id system_hint mode (suc n) result registry y)
  after_resume-Ends n result registry (err e, v) s ih = ((err e, v), refl)
  after_resume-Ends n result registry (ok r, v) s ih =
      ih (extended server config user_id system_hint mode result r) v s

  module _ (wearies : Wearies server config user_id mode rank)
      (idle : Idle server rank user_id mode) where
    loop-Ends :
        (n : ℕ) (result : AgentRunResult) (registry : SkillRegistry) (w : World O)
        (l : List ToolCall)
        → result.pending_tool_calls ≡ l
        → Below server config user_id mode rank n l w
        → Ends (loop (suc n) result registry w)
    loop-Ends n result registry w [] e b =
        ((ok result, w), loop-done server config user_id system_hint mode n result registry w e)
    loop-Ends zero result registry w (tc ∷ tcs) e b = absurd (omega arith)
    loop-Ends (suc n) result registry w (tc ∷ tcs) e b =
        let (trs, reg, v) =
          process_calls server.host server.codec (server.builtins user_id) mode (tc ∷ tcs) registry
            w in
        subst Ends
          (sym
            (loop-round server config user_id system_hint mode (suc n) result registry w tc tcs e))
          (after_resume-Ends n result reg
            (resume_turn server config user_id system_hint mode result trs reg v)
            (Settles-more server config user_id mode rank (rank v.outside) n _
              (omega (
                arith,
                process_calls_rank server config user_id mode rank idle (tc ∷ tcs) registry w,
              ))
              (resume_turn-Settles server config user_id mode rank wearies system_hint result trs
                reg v))
            (λ r v'. loop-Ends n r reg v' r.pending_tool_calls refl))

    -- With so many rounds, or more, a turn replies the same.
    abbrev Replies : (ℕ → Option (Result TurnReply AgentError × World O)) → ℕ → Type 0
    Replies turn n = (x : Result TurnReply AgentError × World O) × ((m : ℕ) → turn (m + n) ≡ some x)

    after_first-Replies :
        (registry : SkillRegistry) (k : ℕ) (y : Result AgentRunResult AgentError × World O)
        → Settles server config user_id mode rank k y
        → Replies (λ n. after_first server config user_id system_hint mode n registry y) (k + 1)
    unfolding after_first
    after_first-Replies registry k (err e, w) s = ((err e, w), λ m. refl)
    after_first-Replies registry k (ok result, w) s =
        let (x, h) = loop-Ends k result registry w result.pending_tool_calls refl s in
        let e : suc k ≡ k + 1 = omega arith in
        (
          finish_turn server config user_id system_hint mode x,
          λ m. ap (finish_loop server config user_id system_hint mode) (
              turn_loop-more server config user_id system_hint mode x m (k + 1) result registry w
                (subst (λ n. loop n result registry w ≡ some x) e h)),
        )

    -- If each answer of the model that asks for tools lowers a rank of the outside, and nothing raises it, be it another
    -- answer, a request, a built-in tool or a channel of the session, then a turn ends: all numbers of rounds above the
    -- rank give one and the same reply.
    pub run_agent_turn-ends :
        (message : String) (w : World O)
        → (x : Result TurnReply AgentError × World O) × ((m : ℕ)
            → run_agent_turn server config user_id system_hint mode
                (m + (rank w.outside + 1))
                message
                w
              ≡ some x)
    unfolding run_agent_turn first_run
    run_agent_turn-ends message w =
        let w1 : World O = record w { db = ensure_user user_id (server.clock w) w.db } in
        by_registry (from_rows server.tools_json (load_skills user_id w1.db))
      where
        by_registry :
            (r : Result SkillRegistry AgentError)
            → Replies
                (λ n. elim r [
                  | err e ↦
                      some (err e, record w { db = ensure_user user_id (server.clock w) w.db })
                  | ok registry ↦
                      first_run server config user_id system_hint mode n message registry
                        (record w { db = ensure_user user_id (server.clock w) w.db })
                ])
                (rank w.outside + 1)
        by_registry (err e) = (_, λ m. refl)
        by_registry (ok registry) = after_first-Replies registry (rank w.outside) _ (
            run-Settles server config user_id mode rank wearies _ message
              (record w { db = ensure_user user_id (server.clock w) w.db }))
