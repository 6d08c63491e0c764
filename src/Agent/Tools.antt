-- ===== src/Agent/Tools.antt =====
-- `execute_tools`: every call of a message gets exactly one result.
use mathlib.Core.List.{Perm, perm_middle, map-append}
use mathlib.Core.List.Perm
use edgeclaw.Prelude.{
  String, ◌≡◌, refl, sym, ap, ap₂, ◌∙◌, Bool, not, List, [], ◌∷◌, ◌++◌, map, retain, Bool-cases,
  inl, inr, filter_map, some, none, Option,
}
use edgeclaw.Types.{
  ContentBlock, tool_result, ToolCall, ToolResult, AgentError, Result, ok, err, error_for,
  from_tool_result,
}
use edgeclaw.Host.{Host, Joined, JoinsInOrder}
use edgeclaw.Agent.{
  settle, Executor, execute_or_error, execute_serial, execute_concurrent, execute_tools,
}

-- An executor puts the call's id on its result; `BuiltinExecutor` does so.
pub record AnswersId (W : Type 0) (executor : Executor W) : Type 0 where
  pub answers :
      (tc : ToolCall) (w : W) (t : ToolResult)
      → (executor.execute tc w).0 ≡ ok t
      → t.tool_use_id ≡ tc.id

abbrev pub ids : List ToolCall → List String
ids = map (λ tc. tc.id)

abbrev pub result_ids : List ToolResult → List String
result_ids = map (λ r. r.tool_use_id)

-- The ids of the results in a message.
abbrev pub result_id : ContentBlock → Option String
result_id (tool_result id content is_error) = some id
result_id _ = none

abbrev pub answered_ids : List ContentBlock → List String
answered_ids = filter_map result_id

pub answered_ids-results :
    (rs : List ToolResult) → answered_ids (map from_tool_result rs) ≡ result_ids rs
unfolding from_tool_result
answered_ids-results [] = refl
answered_ids-results (r ∷ rs) = ap (◌∷◌ r.tool_use_id) (answered_ids-results rs)

retain-perm :
    (p : ToolCall → Bool) (xs : List ToolCall) → Perm (retain p xs ++ retain (λ x. not (p x)) xs) xs
retain-perm p [] = Perm.nil
retain-perm p (x ∷ xs) = elim (Bool-cases (p x)) [
  | inl e ↦ rw e (Perm.cons x (retain-perm p xs))
  | inr e ↦ rw e (Perm.trans (perm_middle _ _) (Perm.cons x (retain-perm p xs)))
]

module _ {W : Type 0} (executor : Executor W) (lawful : AnswersId W executor) where
  settled-id :
      (tc : ToolCall) (r : Result ToolResult AgentError)
      → ((t : ToolResult) → r ≡ ok t → t.tool_use_id ≡ tc.id)
      → (settle tc r).tool_use_id ≡ tc.id
  unfolding settle error_for
  settled-id tc (ok t) h = h t refl
  settled-id tc (err e) h = refl

  execute_or_error-id :
      (tc : ToolCall) (w : W) → (execute_or_error executor tc w).0.tool_use_id ≡ tc.id
  unfolding execute_or_error
  execute_or_error-id tc w = settled-id tc (executor.execute tc w).0 (lawful.answers tc w)

  execute_serial-ids :
      (tcs : List ToolCall) (w : W) → result_ids (execute_serial executor tcs w).0 ≡ ids tcs
  unfolding execute_serial
  execute_serial-ids [] w = refl
  execute_serial-ids (tc ∷ tcs) w =
      ap₂ ◌∷◌ (execute_or_error-id tc w) (execute_serial-ids tcs (execute_or_error executor tc w).1)

  Joined-ids :
      (tcs : List ToolCall) (rs : List ToolResult)
      → Joined (map (execute_or_error executor) tcs) rs
      → result_ids rs ≡ ids tcs
  Joined-ids [] [] h = refl
  Joined-ids (tc ∷ tcs) (r ∷ rs) h =
      let (w, e) = h.0 in
      ap₂ ◌∷◌ (ap (λ (t : ToolResult). t.tool_use_id) e ∙ execute_or_error-id tc w)
        (Joined-ids tcs rs h.1)
  Joined-ids [] (r ∷ rs) h = absurd h
  Joined-ids (tc ∷ tcs) [] h = absurd h

  module _ (host : Host W) (joins : JoinsInOrder W host) where
    execute_concurrent-ids :
        (tcs : List ToolCall) (w : W)
        → result_ids (execute_concurrent host executor tcs w).0 ≡ ids tcs
    unfolding execute_concurrent
    execute_concurrent-ids [] w = refl
    execute_concurrent-ids (tc ∷ tcs) w =
        Joined-ids (tc ∷ tcs) _ (joins.joined (map (execute_or_error executor) (tc ∷ tcs)) w)

    -- The results answer the calls, each exactly once, whatever the executor says is safe
    -- together and however the calls run together interleave.
    pub execute_tools-perm :
        (tcs : List ToolCall) (w : W)
        → Perm (result_ids (execute_tools host executor tcs w).0) (ids tcs)
    unfolding execute_tools
    execute_tools-perm tcs w =
        let safe = retain executor.is_concurrent_safe tcs in
        let rest = retain (λ tc. not (executor.is_concurrent_safe tc)) tcs in
        let (rs, w') = execute_concurrent host executor safe w in
        let eq =
          map-append (λ (r : ToolResult). r.tool_use_id) rs (execute_serial executor rest w').0
          ∙ ap₂ ◌++◌ (execute_concurrent-ids safe w) (execute_serial-ids rest w')
          ∙ sym (map-append (λ (tc : ToolCall). tc.id) safe rest) in
        rw eq (Perm.map _ (retain-perm executor.is_concurrent_safe tcs))
