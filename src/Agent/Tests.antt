-- ===== src/Agent/Tests.antt =====
-- A scripted model and a tool that answers, and the loop's theorems on them.
use mathlib.Core.List.{Perm}
use edgeclaw.Prelude.{
  ℕ, suc, ◌≤◌, String, ◌≡◌, refl, Option, none, some, true, false, List, [], ◌∷◌, str_eq,
  if◌then◌else◌, arith, All, subst,
}
use edgeclaw.Json.{null}
use edgeclaw.Types.{
  text, tool_use, ToolCall, ToolResult, AgentContext, AgentError, http, max_continuations_exceeded,
  Result, ok, err, as_tool_call,
}
use edgeclaw.Host
use edgeclaw.Host.{Host, HttpResponse, LlmResponse, Joined, JoinsInOrder}
use edgeclaw.Llm.{default_config, send_message}
use edgeclaw.Agent.{Agent, Executor, user_message, run, resume, execute_tools}
use edgeclaw.Agent.Tools.{AnswersId, execute_tools-perm, result_ids}
use edgeclaw.Agent.Transcript.{Completes, run-Completes, resume-Completes}
use edgeclaw.Agent.Outcome.{AlwaysCut, CountsPosts, run_cut, run-cost}

-- The bodies that are still to come, and the number of requests made.
record World : Type 0 where
  script : List String
  posts : ℕ

reply : List String → ℕ → Result HttpResponse AgentError × World
reply [] n = (err (http "No more mock responses"), record { script = []; posts = suc n })
reply (b ∷ bs) n = (ok (record { body = b; headers = [] }), record { script = bs; posts = suc n })

abbrev search_call : ToolCall
search_call = record { id = "t1"; name = "search"; input = null }

parse : String → Option LlmResponse
parse body =
    if str_eq body "end"
    then some (record { stop_reason = Host.end_turn; content = text "Hello!" ∷ [] })
    else if str_eq body "use"
    then some (record { stop_reason = Host.tool_use; content = tool_use "t1" "search" null ∷ [] })
    else some (record { stop_reason = Host.max_tokens; content = text "partial" ∷ [] })

abbrev in_order : {W : Type 0} → List (W → ToolResult × W) → W → List ToolResult × W
in_order [] w = ([], w)
in_order (f ∷ fs) w = let (r, w') = f w in let (rs, w'') = in_order fs w' in (r ∷ rs, w'')

abbrev host : Host World
host = record {
  post = λ url headers body w. reply w.script w.posts;
  to_vec = λ request. ok "request";
  parse_response = parse;
  parse_error = λ body. none;
  join_all = in_order;
}

in_order-Joined :
    {W : Type 0} (fs : List (W → ToolResult × W)) (w : W) → Joined fs (in_order fs w).0
in_order-Joined [] w = tt
in_order-Joined (f ∷ fs) w = ((w, refl), in_order-Joined fs (f w).1)

joins : JoinsInOrder World host
joins = record { joined = in_order-Joined }

abbrev searcher : Executor World
searcher = record {
  execute = λ tc w. (ok (record { tool_use_id = tc.id; content = "found"; is_error = false }), w);
  is_concurrent_safe = λ tc. true;
}

lawful : AnswersId World searcher
lawful = record { answers = λ tc w t e. cc }

abbrev with_tools : Agent World
with_tools = record {
  llm = default_config;
  max_iterations = 10;
  max_continuations = 3;
  tool_executor = some searcher;
}

abbrev ctx : AgentContext
ctx = record { system_prompt = ""; messages = []; tools = [] }

abbrev two_rounds : World
two_rounds = record { script = "use" ∷ "cut" ∷ "end" ∷ []; posts = 0 }

answered : (run host with_tools ctx "Hi" two_rounds).1 ≡ record { script = []; posts = 3 }
unfolding run reply parse as_tool_call
answered = refl

execute_tools-perm_example :
    Perm (result_ids (execute_tools host searcher (search_call ∷ []) two_rounds).0) ("t1" ∷ [])
execute_tools-perm_example =
    execute_tools-perm searcher lawful host joins (search_call ∷ []) two_rounds

run-Completes_example :
    Completes with_tools 10
      (user_message (text "Hi" ∷ []) ∷ [])
      (run host with_tools ctx "Hi" two_rounds).0
run-Completes_example = run-Completes host joins with_tools ctx "Hi" two_rounds lawful

resume-Completes_example :
    Completes with_tools 10 (user_message [] ∷ []) (resume host with_tools ctx [] two_rounds).0
resume-Completes_example = resume-Completes host joins with_tools ctx [] two_rounds lawful

-- A model that is always cut off.
abbrev cut_host : Host World
cut_host = record {
  post = λ url headers body w. (ok (record { body = "cut"; headers = [] }), w);
  to_vec = λ request. ok "request";
  parse_response = parse;
  parse_error = λ body. none;
  join_all = in_order;
}

always_cut : AlwaysCut cut_host with_tools
unfolding send_message parse
always_cut system messages tools w = (text "partial" ∷ [], w, refl)

run_cut_example :
    (run cut_host with_tools ctx "Hi" two_rounds).0 ≡ err (max_continuations_exceeded 3)
run_cut_example = run_cut cut_host with_tools always_cut ctx "Hi" two_rounds

reply-posts : (l : List String) (n : ℕ) → (reply l n).1.posts ≡ suc n
unfolding reply
reply-posts [] n = refl
reply-posts (b ∷ l) n = refl

in_order-posts :
    (fs : List (World → ToolResult × World)) (w : World)
    → All (λ f. (v : World) → (f v).1.posts ≡ v.posts) fs
    → (in_order fs w).1.posts ≡ w.posts
in_order-posts [] w h = refl
in_order-posts (f ∷ fs) w h = ground (arith, in_order-posts fs (f w).1 h.1, h.0 w)

counts : CountsPosts host with_tools (λ w. w.posts)
counts = record {
  post = λ url headers body w. omega (arith, reply-posts w.script w.posts);
  execute = λ executor tc w e.
      let q : searcher ≡ executor = cc in
      subst (λ (x : Executor World). (x.execute tc w).1.posts ≡ w.posts) q refl;
  join_all = in_order-posts;
}

run-cost_example : (run host with_tools ctx "Hi" two_rounds).1.posts ≤ 10
run-cost_example = run-cost host with_tools (λ w. w.posts) counts ctx "Hi" two_rounds
