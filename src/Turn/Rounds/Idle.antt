-- ===== src/Turn/Rounds/Idle.antt =====
-- The execution of calls where neither the built-in tools, nor requests, nor a session's channels raise a rank.
use edgeclaw.Prelude.{
  ℕ, ◌≤◌, String, ◌≡◌, refl, sym, ap, ◌∙◌, if◌then◌else◌, subst, Option, none, some, inl, inr, true,
  false, List, [], ◌∷◌, arith, All, str_eq, Bool-cases,
}
use edgeclaw.Prelude.Text.{split_once, ◌<>◌}
use edgeclaw.Types.{
  ToolCall, ToolResult, AgentError, PermissionCheck, allow, deny, requires_approval, Result, ok,
  err, serialization, and_then, skill_not_found,
}
use edgeclaw.Json.{Value}
use edgeclaw.Host.{HttpResponse}
use edgeclaw.Mcp.{McpClient, send_request, receive_rpc, call_tool}
use edgeclaw.Skills.{SkillRegistry, call_skill, dispatch}
use edgeclaw.Executor
use edgeclaw.Executor.{BuiltinTool, BuiltinExecutor, builtin}
use edgeclaw.Turn.{
  Server, World, ApprovalMode, auto_approve, session, Channel, ServerMessage, ask, may_run, report,
  run_call,
}

module _ {O : Type 0} (server : Server O) (rank : O → ℕ) where
  pub record Quiet (channel : Channel (World O)) : Type 0 where
    pub new_request_id : (w : World O) → rank (channel.new_request_id w).1.outside ≤ rank w.outside
    pub insert_pending :
        (id : String) (w : World O) → rank (channel.insert_pending id w).outside ≤ rank w.outside
    pub send : (m : ServerMessage) (w : World O) → rank (channel.send m w).outside ≤ rank w.outside
    pub wait : (id : String) (w : World O) → rank (channel.wait id w).1.outside ≤ rank w.outside

  abbrev pub QuietMode : ApprovalMode (World O) → Type 0
  QuietMode auto_approve = Unit {0}
  QuietMode (session channel) = Quiet channel

  -- A built-in tool that does not raise the rank.
  abbrev pub Calm : String × BuiltinTool (World O) → Type 0
  Calm (name, tool) =
      (input : Value) (w : World O) → rank (tool.execute input w).1.outside ≤ rank w.outside

  pub record Idle (user_id : String) (mode : ApprovalMode (World O)) : Type 0 where
    pub post :
        (url : String) (headers : List (String × String)) (body : String) (w : World O)
        → rank (server.host.post url headers body w).1.outside ≤ rank w.outside
    pub tools : All Calm (server.builtins user_id).builtins
    pub quiet : QuietMode mode

  pub ≤_trans : {a b c : ℕ} → a ≤ b → b ≤ c → a ≤ c
  ≤_trans h k = omega arith

  module _ (user_id : String) (mode : ApprovalMode (World O)) (idle : Idle user_id mode) where
    receive_rpc_rank :
        (client : McpClient) (x : Result HttpResponse AgentError × World O)
        → rank (receive_rpc server.host server.codec client x).2.outside ≤ rank x.1.outside
    unfolding receive_rpc
    receive_rpc_rank client (err e, w) = omega arith
    receive_rpc_rank client (ok response, w) = omega arith

    sent_rank :
        (client : McpClient) (url : String) (headers : List (String × String)) (w : World O)
        (taken : McpClient) (r : Result String String)
        → rank
            (elim r as (λ x. Result Value AgentError × McpClient × World O) [
              | err e ↦ (err (serialization e), taken, w)
              | ok body ↦
                  receive_rpc server.host server.codec client (server.host.post url headers body w)
            ]).2.outside
          ≤ rank w.outside
    sent_rank client url headers w taken (err e) = omega arith
    sent_rank client url headers w taken (ok body) =
        ≤_trans (receive_rpc_rank client (server.host.post url headers body w))
          (idle.post url headers body w)

    call_tool_rank :
        (client : McpClient) (name : String) (arguments : Value) (w : World O)
        → rank (call_tool server.host server.codec client name arguments w).2.outside
          ≤ rank w.outside
    unfolding call_tool send_request
    call_tool_rank client name arguments w = sent_rank _ _ _ w _ _

    call_skill_rank :
        (name tool : String) (tc : ToolCall) (registry : SkillRegistry) (w : World O)
        → rank (call_skill server.host server.codec name tool tc registry w).2.outside
          ≤ rank w.outside
    unfolding call_skill
    call_skill_rank name tool tc [] w = omega arith
    call_skill_rank name tool tc (s ∷ registry) w =
        elim (str_eq s.name name)
          as (λ b.
            rank
              (elim b as (λ x. Result ToolResult AgentError × SkillRegistry × World O) [
                | true ↦
                    let (r, client, w') =
                      call_tool server.host server.codec s.client tool tc.input w in
                    (
                      and_then r (λ t. ok (record t { tool_use_id = tc.id })),
                      (record s { client = client }) ∷ registry,
                      w',
                    )
                | false ↦
                    let (r, skills', w') =
                      call_skill server.host server.codec name tool tc registry w in
                    (r, s ∷ skills', w')
              ]).2.outside
            ≤ rank w.outside) [
              | true ↦ call_tool_rank s.client tool tc.input w
              | false ↦ call_skill_rank name tool tc registry w
            ]

    dispatch_rank :
        (tc : ToolCall) (registry : SkillRegistry) (w : World O)
        → rank (dispatch server.host server.codec tc registry w).2.outside ≤ rank w.outside
    unfolding dispatch
    dispatch_rank tc registry w = named (split_once "__" tc.name)
      where
        named :
            (o : Option (String × String))
            → rank
                (elim o as (λ x. Result ToolResult AgentError × SkillRegistry × World O) [
                  | none ↦ (
                    err (
                        skill_not_found (
                          "Tool name '" <> tc.name
                          <> "' has no skill prefix (expected 'skill__tool')")),
                    registry,
                    w,
                  )
                  | some (skill_name, tool_name) ↦
                      call_skill server.host server.codec skill_name tool_name tc registry w
                ]).2.outside
              ≤ rank w.outside
        named none = omega arith
        named (some (skill_name, tool_name)) = call_skill_rank skill_name tool_name tc registry w

    some-injective : {a b : BuiltinTool (World O)} → some a ≡ some b → a ≡ b
    some-injective h = cc

    tool_rank :
        (name : String) (tools : List (String × BuiltinTool (World O)))
        (tool : BuiltinTool (World O))
        → All Calm tools
        → builtin name tools ≡ some tool
        → (input : Value) (w : World O) → rank (tool.execute input w).1.outside ≤ rank w.outside
    tool_rank name [] tool h e input w = cc
    tool_rank name ((key, t) ∷ tools) tool h e input w = elim (Bool-cases (str_eq key name)) [
      | inl q ↦
          let same : t ≡ tool =
            some-injective (sym (ap (λ b. if b then some t else builtin name tools) q) ∙ e) in
          subst (λ (x : BuiltinTool (World O)). rank (x.execute input w).1.outside ≤ rank w.outside)
            same (h.0 input w)
      | inr q ↦
          tool_rank name tools tool h.1
            (sym (ap (λ b. if b then some t else builtin name tools) q) ∙ e) input w
    ]

    execute_rank :
        (tc : ToolCall) (registry : SkillRegistry) (w : World O)
        → rank
            (Executor.execute server.host server.codec
              (server.builtins user_id)
              tc
              registry
              w).2.outside
          ≤ rank w.outside
    unfolding Executor.execute
    execute_rank tc registry w = found (builtin tc.name (server.builtins user_id).builtins) refl
      where
        found :
            (o : Option (BuiltinTool (World O)))
            → builtin tc.name (server.builtins user_id).builtins ≡ o
            → rank
                (elim o as (λ x. Result ToolResult AgentError × SkillRegistry × World O) [
                  | some tool ↦
                      let (result, w') = tool.execute tc.input w in
                      (ok (record result { tool_use_id = tc.id }), registry, w')
                  | none ↦ dispatch server.host server.codec tc registry w
                ]).2.outside
              ≤ rank w.outside
        found none e = dispatch_rank tc registry w
        found (some tool) e = tool_rank tc.name _ tool idle.tools e tc.input w

    pub run_call_rank :
        (tc : ToolCall) (registry : SkillRegistry) (w : World O)
        → rank (run_call server.host server.codec (server.builtins user_id) tc registry w).2.outside
          ≤ rank w.outside
    unfolding run_call
    run_call_rank tc registry w = execute_rank tc registry w

  ask_rank :
      (channel : Channel (World O)) (tc : ToolCall) (reason : String) (w : World O)
      → Quiet channel
      → rank (ask channel tc reason w).1.outside ≤ rank w.outside
  unfolding ask
  ask_rank channel tc reason w q =
      let x = channel.new_request_id w in
      let v = channel.insert_pending x.0 x.1 in
      ≤_trans (q.wait x.0 _)
        (≤_trans (q.send _ v) (≤_trans (q.insert_pending x.0 x.1) (q.new_request_id w)))

  pub may_run_rank :
      (mode : ApprovalMode (World O)) (p : PermissionCheck) (tc : ToolCall) (w : World O)
      → QuietMode mode
      → rank (may_run mode p tc w).1.outside ≤ rank w.outside
  unfolding may_run
  may_run_rank auto_approve p tc w q = omega arith
  may_run_rank (session channel) allow tc w q = omega arith
  may_run_rank (session channel) (deny reason) tc w q = ask_rank channel tc reason w q
  may_run_rank (session channel) (requires_approval reason) tc w q = ask_rank channel tc reason w q

  pub report_rank :
      (mode : ApprovalMode (World O)) (m : ServerMessage) (w : World O)
      → QuietMode mode
      → rank (report mode m w).outside ≤ rank w.outside
  unfolding report
  report_rank auto_approve m w q = omega arith
  report_rank (session channel) m w q = q.send m w
