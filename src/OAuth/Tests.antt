-- ===== src/OAuth/Tests.antt =====
-- A flow that is begun, and completed in time.
use edgeclaw.Prelude.{◌+◌, ◌^◌, ◌≤◌, String, ◌≡◌, refl, none, List, [], ◌∷◌}
use Prim.Native.Nat.{◌%◌}
use edgeclaw.OAuth.{
  ProviderConfig, OAuthFlowState, new_flow, init_flow, complete_flow, lookup, remove, insert,
  cleanup,
}
use edgeclaw.OAuth.Flows.{
  Event, began, completed, cleaned, Run, none_yet, begin, complete, clean, Live, complete_flow-Live,
}

abbrev config : ProviderConfig
config = record {
  client_id = "id";
  client_secret = "secret";
  auth_url = "https://example.com/authorize";
  token_url = "https://example.com/token";
  default_scopes = "read,write";
  extra_auth_params = [];
}

abbrev with_query : String → List (String × String) → String
with_query url pairs = url

abbrev challenge : String → String
challenge v = v

abbrev flow : OAuthFlowState
flow = new_flow "verifier" 1000 "ann" "github" config "github" none

abbrev events : List Event
events = cleaned 1050 ∷ began "n1" flow ∷ completed "n1" 900 ∷ []

run : Run with_query challenge events (("n1", flow) ∷ [])
unfolding init_flow new_flow complete_flow lookup insert remove cleanup
run =
    clean 1050
      (begin "n1" "verifier" 1000 "ann" "github" config "github" "https://example.com/callback" none
        (complete "n1" 900 none_yet refl) refl)
      refl

complete_flow-Live_example :
    Live "n1" flow events
    × (1600 ≤ (flow.created_at + 600) % 2 ^ 64)
    × (lookup "n1" (complete_flow "n1" 1600 (("n1", flow) ∷ [])).1 ≡ none)
unfolding complete_flow lookup new_flow
complete_flow-Live_example = complete_flow-Live with_query challenge run "n1" 1600 flow refl
