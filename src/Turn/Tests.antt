-- ===== src/Turn/Tests.antt =====
-- Turns of a model that asks for `bash` in every answer.
use edgeclaw.Prelude.{
  ℕ, zero, suc, String, ◌≤◌, Option, str_eq, if◌then◌else◌, arith, ◌≡◌, ◌≢◌, refl, none, some, true,
  List, [], ◌∷◌, ◌++◌, ◌+◌,
}
use edgeclaw.Prelude.Int.{pos}
use edgeclaw.Json.{null}
use edgeclaw.Types.{
  ok, tool_use, ok_result, AgentError, Result, text, ToolCall, allow, as_tool_call,
}
use edgeclaw.Llm.{send_message, receive, read_response}
use edgeclaw.Fixtures.{
  host, codec, json, executor, server, silent, config, world, bash_call, bash_tool, no_tables,
}
use edgeclaw.Skills.{from_rows}
use edgeclaw.Executor.{check_permission}
use edgeclaw.Prelude.Text.{contains, to_lowercase, strip_prefix, last_piece, split_once}
use edgeclaw.Permissions.{
  check, deny_list, allow_list, destructive_pattern, default_requires_approval, is_destructive,
}
use edgeclaw.Database.{Tables, load_skills, ensure_user}
use edgeclaw.Host
use edgeclaw.Host.{Host, HttpResponse, LlmResponse}
use edgeclaw.Turn.Rounds.Idle.{Idle}
use edgeclaw.Turn.Rounds.Settles.{Wearied, Wearies}
use edgeclaw.Turn.Rounds.Ends.{run_agent_turn-ends}
use edgeclaw.Turn.{
  Server, TurnReply, World, auto_approve, session, process_calls, run_calls, run_agent_turn,
}
use edgeclaw.Turn.Calls.{
  result_ids, Apart, process_calls-ids, process_calls-refused, process_calls-auto_approve, refusals,
}
use edgeclaw.Turn.Rounds.{AlwaysAsks, run_agent_turn-asks}
use edgeclaw.Turn.Approval.{
  approvals_of, calls_of, clear_approvals, persist_approvals, resolve_calls,
}
use edgeclaw.Turn.Approval.Laws.{
  clear_approvals-only, calls_of-persist_approvals, resolve_calls-ids,
}

process_calls-ids_example :
    result_ids
      (process_calls host codec executor (session silent) (bash_call ∷ bash_call ∷ []) [] world).0
    ≡ "t1" ∷ "t1" ∷ []
process_calls-ids_example =
    process_calls-ids host codec executor (session silent) (bash_call ∷ bash_call ∷ []) [] world

silent-Apart : Apart host codec executor silent (λ (w : World ℕ). w.outside)
silent-Apart = record {
  new_request_id = λ w. refl;
  insert_pending = λ id w. refl;
  send = λ m w. refl;
  wait = λ id w. refl;
}

bash-asks : check_permission host codec executor bash_call ≢ allow
unfolding check_permission check deny_list contains strip_prefix to_lowercase allow_list last_piece
    split_once destructive_pattern is_destructive default_requires_approval
bash-asks h = cc

process_calls-refused_example :
    ((process_calls host codec executor (session silent) (bash_call ∷ []) [] world).0
      ≡ refusals (bash_call ∷ []))
    × ((process_calls host codec executor (session silent) (bash_call ∷ []) [] world).1 ≡ [])
    × ((process_calls host codec executor (session silent) (bash_call ∷ []) [] world).2.outside ≡ 0)
process_calls-refused_example =
    process_calls-refused host codec executor silent (λ (w : World ℕ). w.outside) silent-Apart
      (λ id w. refl) (bash_call ∷ []) [] world (bash-asks, tt)

process_calls-auto_approve_example :
    process_calls host codec executor auto_approve (bash_call ∷ []) [] world
    ≡ run_calls host codec executor (bash_call ∷ []) [] world
process_calls-auto_approve_example =
    process_calls-auto_approve host codec executor (bash_call ∷ []) [] world

always : AlwaysAsks server config "ann" none auto_approve
unfolding send_message receive read_response as_tool_call
always system messages tools w = (_, w, bash_call, [], refl, refl)

run_agent_turn-asks_example :
    run_agent_turn server config "ann" none auto_approve 1000 "Hi" world ≡ none
unfolding from_rows load_skills ensure_user
run_agent_turn-asks_example =
    run_agent_turn-asks server config "ann" none auto_approve always 1000 "Hi" world [] refl

-- A model that asks for tools as often as the outside says, and a tool that leaves that alone.
abbrev answer_of : String → Option LlmResponse
answer_of body = some (
    if str_eq body "ask"
    then record { stop_reason = Host.tool_use; content = tool_use "t1" "bash" null ∷ [] }
    else record { stop_reason = Host.end_turn; content = text "Done" ∷ [] })

abbrev answer_from : World ℕ → ℕ → Result HttpResponse AgentError × World ℕ
answer_from w zero = (ok (record { body = "done"; headers = [] }), record w { outside = 0 })
answer_from w (suc n) = (ok (record { body = "ask"; headers = [] }), record w { outside = n })

abbrev weary : Server ℕ
weary = record server {
  host = record host {
    post = λ url headers body w. answer_from w w.outside;
    parse_response = answer_of;
  };
  builtins = λ user_id. record executor {
    builtins = ("bash", record bash_tool { execute = λ input w. (ok_result "done", w) }) ∷ [];
  };
}

abbrev asking_twice : World ℕ
asking_twice = record world { outside = 2 }

answer_from-Wearied :
    (w : World ℕ) (n : ℕ)
    → Wearied weary config "ann" auto_approve (λ n. n) n (receive weary.host (answer_from w n))
unfolding receive read_response
answer_from-Wearied w zero = omega arith
answer_from-Wearied w (suc n) = omega arith

weary-Wearies : Wearies weary config "ann" auto_approve (λ n. n)
unfolding send_message
weary-Wearies system messages tools w = answer_from-Wearied w w.outside

answer_from-outside : (w : World ℕ) (n : ℕ) → (answer_from w n).1.outside ≤ n
answer_from-outside w zero = omega arith
answer_from-outside w (suc n) = omega arith

weary-Idle : Idle weary (λ n. n) "ann" auto_approve
weary-Idle = record {
  post = λ url headers body w. answer_from-outside w w.outside;
  tools = (λ input w. omega arith, tt);
  quiet = tt;
}

run_agent_turn-ends_example :
    (x : Result TurnReply AgentError × World ℕ) × ((m : ℕ)
      → run_agent_turn weary config "ann" none auto_approve (m + (2 + 1)) "Hi" asking_twice
        ≡ some x)
run_agent_turn-ends_example =
    run_agent_turn-ends weary config "ann" none auto_approve (λ n. n) weary-Wearies weary-Idle "Hi"
      asking_twice

abbrev waiting : Tables
waiting = record no_tables {
  pending_approvals =
      record { id = 2; user_id = "eve"; tool_call = "t2"; created_at = pos 1 }
      ∷ record { id = 1; user_id = "ann"; tool_call = "t0"; created_at = pos 1 }
      ∷ [];
}

clear_approvals-only_test :
    (approvals_of "ann" (clear_approvals "ann" waiting) ≡ [])
    × (approvals_of "eve" (clear_approvals "ann" waiting) ≡ approvals_of "eve" waiting)
clear_approvals-only_test = clear_approvals-only "ann" "eve" waiting refl

abbrev first_call : List ToolCall
first_call = record bash_call { id = "t0" } ∷ []

calls_of-persist_approvals_example :
    calls_of json (
      approvals_of "ann"
        (persist_approvals server "ann" (bash_call ∷ []) (record world { db = waiting })).db)
    ≡ some (first_call ++ bash_call ∷ [])
unfolding approvals_of calls_of
calls_of-persist_approvals_example =
    calls_of-persist_approvals server "ann" (bash_call ∷ []) first_call
      (record world { db = waiting }) (("t1", refl, refl), tt) refl

resolve_calls-ids_test :
    result_ids (resolve_calls server "ann" true (bash_call ∷ []) [] world).0 ≡ "t1" ∷ []
resolve_calls-ids_test = resolve_calls-ids server "ann" true (bash_call ∷ []) [] world
