-- ===== src/Turn/Calls.antt =====
-- The results that the server makes of the model's calls.
use edgeclaw.Prelude.{
  String, ◌≡◌, ◌≢◌, refl, ap, ap₂, ◌∙◌, Bool, true, false, not, List, [], ◌∷◌, map, All, str_eq,
  unwrap_or, Bool-cases, Option-cases, inl, inr,
}
use edgeclaw.Types.{
  ToolCall, ToolResult, AgentError, PermissionCheck, allow, deny, requires_approval, Result, ok,
  err, error_for, and_then,
}
use edgeclaw.Prelude.Text.{split_once}
use edgeclaw.Host.{Host}
use edgeclaw.Agent.{settle}
use edgeclaw.Mcp.{Codec}
use edgeclaw.Skills.{SkillRegistry, dispatch, call_skill}
use edgeclaw.Executor
use edgeclaw.Executor.{BuiltinExecutor, BuiltinTool, check_permission, builtin}
use edgeclaw.Turn.{
  ApprovalMode, auto_approve, session, Channel, Settled, ServerMessage, confirmation_prompt,
  tool_executed, may_run, ask, report, run_call, process_call, process_calls, run_calls, denied,
}

abbrev pub ids : List ToolCall → List String
ids tcs = map (λ tc. tc.id) tcs

abbrev pub result_ids : List ToolResult → List String
result_ids trs = map (λ tr. tr.tool_use_id) trs

-- The results of calls that are all refused.
abbrev pub refusals : List ToolCall → List ToolResult
refusals tcs = map (λ tc. error_for tc.id denied) tcs

-- A result that is one of the call's.
abbrev Own : ToolCall → Result ToolResult AgentError → Type 0
Own tc (ok t) = t.tool_use_id ≡ tc.id
Own tc (err e) = Unit {0}

settle-id :
    (tc : ToolCall) (r : Result ToolResult AgentError)
    → Own tc r
    → (settle tc r).tool_use_id ≡ tc.id
unfolding settle error_for
settle-id tc (ok t) h = h
settle-id tc (err e) h = refl

set-Own :
    (tc : ToolCall) (r : Result ToolResult AgentError)
    → Own tc (and_then r (λ t. ok (record t { tool_use_id = tc.id })))
set-Own tc (ok t) = refl
set-Own tc (err e) = tt

module _ {W : Type 0} (host : Host W) (codec : Codec) where
  call_skill-Own :
      (name tool : String) (tc : ToolCall) (registry : SkillRegistry) (w : W)
      → Own tc (call_skill host codec name tool tc registry w).0
  unfolding call_skill
  call_skill-Own name tool tc [] w = tt
  call_skill-Own name tool tc (skill ∷ skills) w = elim (Bool-cases (str_eq skill.name name)) [
    | inl e ↦ rw (e, call_skill) (set-Own tc _)
    | inr e ↦ rw (e, call_skill) (call_skill-Own name tool tc skills w)
  ]

  module _ (executor : BuiltinExecutor W) where
    dispatch-Own :
        (tc : ToolCall) (registry : SkillRegistry) (w : W)
        → Own tc (dispatch host codec tc registry w).0
    unfolding dispatch
    dispatch-Own tc registry w = elim (Option-cases (split_once "__" tc.name)) [
      | inl e ↦ rw (e, dispatch) tt
      | inr ((name, tool), e) ↦ rw (e, dispatch) (call_skill-Own name tool tc registry w)
    ]

    execute-Own :
        (tc : ToolCall) (registry : SkillRegistry) (w : W)
        → Own tc (Executor.execute host codec executor tc registry w).0
    unfolding Executor.execute
    execute-Own tc registry w = elim (Option-cases (builtin tc.name executor.builtins)) [
      | inl e ↦ rw (e, Executor.execute) (dispatch-Own tc registry w)
      | inr (tool, e) ↦ rw (e, Executor.execute) refl
    ]

    run_call-id :
        (tc : ToolCall) (registry : SkillRegistry) (w : W)
        → (run_call host codec executor tc registry w).0.tool_use_id ≡ tc.id
    unfolding run_call
    run_call-id tc registry w = settle-id tc _ (execute-Own tc registry w)

    -- The call's state behind the question whether it may run.
    abbrev pub settled : ApprovalMode W → ToolCall → SkillRegistry → Bool × W → Settled W
    settled mode tc registry (approved, w1) = elim approved [
      | false ↦ (error_for tc.id denied, registry, w1)
      | true ↦
          let (tr, registry', w2) = run_call host codec executor tc registry w1 in
          (tr, registry', report mode (tool_executed tc.name (not tr.is_error)) w2)
    ]

    settled-id :
        (mode : ApprovalMode W) (tc : ToolCall) (registry : SkillRegistry) (x : Bool × W)
        → (settled mode tc registry x).0.tool_use_id ≡ tc.id
    unfolding error_for
    settled-id mode tc registry (false, w) = refl
    settled-id mode tc registry (true, w) = run_call-id tc registry w

    process_call-id :
        (mode : ApprovalMode W) (tc : ToolCall) (registry : SkillRegistry) (w : W)
        → (process_call host codec executor mode tc registry w).0.tool_use_id ≡ tc.id
    unfolding process_call
    process_call-id mode tc registry w =
        settled-id mode tc registry (may_run mode (check_permission host codec executor tc) tc w)

    -- Whatever is allowed, approved or refused, and however the tools end, each call gets one result, with the
    -- call's id, in the order of the calls.
    pub process_calls-ids :
        (mode : ApprovalMode W) (tcs : List ToolCall) (registry : SkillRegistry) (w : W)
        → result_ids (process_calls host codec executor mode tcs registry w).0 ≡ ids tcs
    unfolding process_calls
    process_calls-ids mode [] registry w = refl
    process_calls-ids mode (tc ∷ tcs) registry w =
        ap₂ ◌∷◌ (process_call-id mode tc registry w) (process_calls-ids mode tcs _ _)

    pub run_calls-ids :
        (tcs : List ToolCall) (registry : SkillRegistry) (w : W)
        → result_ids (run_calls host codec executor tcs registry w).0 ≡ ids tcs
    unfolding run_calls
    run_calls-ids [] registry w = refl
    run_calls-ids (tc ∷ tcs) registry w =
        ap₂ ◌∷◌ (run_call-id tc registry w) (run_calls-ids tcs _ _)

    -- A part of the outside state that the session's channels leave alone.
    pub record Apart {V : Type 0} (channel : Channel W) (view : W → V) : Type 0 where
      pub new_request_id : (w : W) → view (channel.new_request_id w).1 ≡ view w
      pub insert_pending : (id : String) (w : W) → view (channel.insert_pending id w) ≡ view w
      pub send : (m : ServerMessage) (w : W) → view (channel.send m w) ≡ view w
      pub wait : (id : String) (w : W) → view (channel.wait id w).1 ≡ view w

    -- Nobody approves: a refusal, a timeout, or a channel that is dropped.
    abbrev pub NeverApproves : Channel W → Type 0
    NeverApproves channel = (id : String) (w : W) → unwrap_or (channel.wait id w).0 false ≡ false

    module _ {V : Type 0} (channel : Channel W) (view : W → V) (apart : Apart channel view)
        (never : NeverApproves channel) where
      ask-refused :
          (tc : ToolCall) (reason : String) (w : W)
          → ((ask channel tc reason w).0 ≡ false) × (view (ask channel tc reason w).1 ≡ view w)
      unfolding ask
      ask-refused tc reason w =
          let (id, w1) = channel.new_request_id w in
          let w2 = channel.insert_pending id w1 in
          let w3 = channel.send (confirmation_prompt id (tc ∷ []) (reason ∷ [])) w2 in
          (
            never id w3,
            apart.wait id w3
                ∙ apart.send _ w2
                ∙ apart.insert_pending id w1
                ∙ apart.new_request_id w,
          )

      may_run-refused :
          (p : PermissionCheck) (tc : ToolCall) (w : W)
          → p ≢ allow
          → ((may_run (session channel) p tc w).0 ≡ false)
            × (view (may_run (session channel) p tc w).1 ≡ view w)
      unfolding may_run
      may_run-refused allow tc w h = absurd (h refl)
      may_run-refused (deny reason) tc w h = ask-refused tc reason w
      may_run-refused (requires_approval reason) tc w h = ask-refused tc reason w

      settled-refused :
          (tc : ToolCall) (registry : SkillRegistry) (x : Bool × W) (w : W)
          → x.0 ≡ false
          → view x.1 ≡ view w
          → ((settled (session channel) tc registry x).0 ≡ error_for tc.id denied)
            × ((settled (session channel) tc registry x).1 ≡ registry)
            × (view (settled (session channel) tc registry x).2 ≡ view w)
      settled-refused tc registry (false, w1) w h v = (refl, refl, v)
      settled-refused tc registry (true, w1) w h v = cc

      process_call-refused :
          (tc : ToolCall) (registry : SkillRegistry) (w : W)
          → check_permission host codec executor tc ≢ allow
          → ((process_call host codec executor (session channel) tc registry w).0
              ≡ error_for tc.id denied)
            × ((process_call host codec executor (session channel) tc registry w).1 ≡ registry)
            × (view (process_call host codec executor (session channel) tc registry w).2 ≡ view w)
      unfolding process_call
      process_call-refused tc registry w h =
          let (a, v) = may_run-refused (check_permission host codec executor tc) tc w h in
          settled-refused tc registry
            (may_run (session channel) (check_permission host codec executor tc) tc w) w a v

      -- In a session whose client approves nothing, calls that the policies do not allow are all refused:
      -- their results say so, no skill's client is used, and a part of the outside state that the session's
      -- channels leave alone is as it was.
      pub process_calls-refused :
          (tcs : List ToolCall) (registry : SkillRegistry) (w : W)
          → All (λ tc. check_permission host codec executor tc ≢ allow) tcs
          → ((process_calls host codec executor (session channel) tcs registry w).0 ≡ refusals tcs)
            × ((process_calls host codec executor (session channel) tcs registry w).1 ≡ registry)
            × (view (process_calls host codec executor (session channel) tcs registry w).2 ≡ view w)
      unfolding process_calls
      process_calls-refused [] registry w h = (refl, refl, refl)
      process_calls-refused (tc ∷ tcs) registry w h =
          let (r, reg, v) = process_call-refused tc registry w h.0 in
          let (rs, regs, vs) =
            process_calls-refused tcs
              (process_call host codec executor (session channel) tc registry w).1
              (process_call host codec executor (session channel) tc registry w).2 h.1 in
          (ap₂ ◌∷◌ r rs, regs ∙ reg, vs ∙ v)

    -- Without a session the policies do not matter: every call is executed, as on an approval, those that
    -- a policy denies included.
    pub process_calls-auto_approve :
        (tcs : List ToolCall) (registry : SkillRegistry) (w : W)
        → process_calls host codec executor auto_approve tcs registry w
          ≡ run_calls host codec executor tcs registry w
    unfolding process_calls run_calls process_call may_run report
    process_calls-auto_approve [] registry w = refl
    process_calls-auto_approve (tc ∷ tcs) registry w =
        ap (λ x. ((run_call host codec executor tc registry w).0 ∷ x.0, x.1, x.2))
          (process_calls-auto_approve tcs (run_call host codec executor tc registry w).1
            (run_call host codec executor tc registry w).2)
