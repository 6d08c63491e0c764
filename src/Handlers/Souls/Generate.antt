-- ===== src/Handlers/Souls/Generate.antt =====
-- crates/edgeclaw-server/src/handlers.rs: `generate_soul_handler`, which has the model write a soul.
use edgeclaw.Prelude.{String, none, some, [], ◌∷◌, filter_map, unwrap_or}
use edgeclaw.Prelude.Int.{ℤ}
use edgeclaw.Prelude.Text.{◌<>◌, trim, strip_prefix, strip_suffix, join}
use edgeclaw.Json.{Value, get_str}
use edgeclaw.Types.{Result, ok, err, AgentError, display_error, user, text, as_text}
use edgeclaw.Soul.{Soul, field_or}
use edgeclaw.Soul.Archetype
use edgeclaw.Soul.Tone
use edgeclaw.Soul.Verbosity
use edgeclaw.Soul.DecisionStyle
use edgeclaw.Host.{Host, LlmResponse}
use edgeclaw.Llm.{LlmConfig, send_message}
use edgeclaw.Database.{ensure_user}
use edgeclaw.Turn.{ServerConfig, World}
use edgeclaw.Handlers.{Reply, bad_request, internal_error}
use edgeclaw.Handlers.Souls.{GenerateSoulRequest, replace_soul, soul_to_json}

unfoldable pub generator_config : ServerConfig → LlmConfig
generator_config config = record {
  api_key = unwrap_or config.anthropic_api_key "";
  model = unwrap_or config.default_model "claude-sonnet-4-20250514";
  base_url = config.anthropic_base_url;
  max_tokens = 1024;
}

unfoldable pub gen_prompt : String → String
gen_prompt description =
    "Generate an AI agent personality based on this description: \"" <> description
    <> "\"\n\nReturn ONLY a JSON object with these fields:\n- \"name\": a short name for the agent (1-2 words)\n- \"personality\": a 1-3 sentence personality description\n- \"archetype\": one of: assistant, engineer, researcher, operator, mentor\n- \"tone\": one of: neutral, friendly, direct, formal\n- \"verbosity\": one of: terse, balanced, thorough\n- \"decision_style\": one of: cautious, balanced, autonomous\n\nReturn raw JSON only, no markdown fences or explanation."

-- The answer without the fences of a Markdown block.
unfoldable pub without_fence : String → String
without_fence t = elim (strip_prefix "```json" t) [
  | some rest ↦ rest
  | none ↦ unwrap_or (strip_prefix "```" t) t
]

unfoldable pub json_text : String → String
unfolding without_fence
json_text response_text =
    let json_str = without_fence (trim response_text) in
    trim (unwrap_or (strip_suffix "```" json_str) json_str)

-- A field that is missing, is no text or names no trait gives the default.
unfoldable pub soul_of_json : Value → Soul
soul_of_json generated = record {
  name = unwrap_or (get_str generated "name") "Agent";
  personality = unwrap_or (get_str generated "personality") "";
  archetype = field_or Archetype.from_str Archetype.default (get_str generated "archetype");
  tone = field_or Tone.from_str Tone.default (get_str generated "tone");
  verbosity = field_or Verbosity.from_str Verbosity.default (get_str generated "verbosity");
  decision_style =
      field_or DecisionStyle.from_str DecisionStyle.default (get_str generated "decision_style");
}

-- The time of a message is not sent, and `from_json` is serde_json's.
module _ {O : Type 0} (host : Host (World O)) (clock : World O → ℤ)
    (from_json : String → Result Value String) (config : ServerConfig)
    (body : GenerateSoulRequest) where
  unfoldable pub store_generated : Result Value String → World O → Reply × World O
  unfolding soul_of_json replace_soul soul_to_json
  store_generated (err e) w = (err (bad_request ("failed to parse LLM response as JSON: " <> e)), w)
  store_generated (ok generated) w =
      let soul = soul_of_json generated in
      (ok (soul_to_json soul), record w { db = replace_soul body.user_id soul (clock w) w.db })

  unfoldable pub after_answer : Result LlmResponse AgentError × World O → Reply × World O
  unfolding store_generated json_text display_error
  after_answer (err e, w) = (err (internal_error (display_error e)), w)
  after_answer (ok result, w) =
      store_generated (from_json (json_text (join "" (filter_map as_text result.content)))) w

  -- `generate_soul_handler`.
  unfoldable pub generate_soul : World O → Reply × World O
  unfolding after_answer gen_prompt generator_config ensure_user send_message
  generate_soul w =
      let w1 = record w { db = ensure_user body.user_id (clock w) w.db } in
      after_answer (
        send_message host (generator_config config)
          "You are a configuration generator. Return only valid JSON."
          (record {
            role = user;
            content = text (gen_prompt body.description) ∷ [];
            created_at = clock w1;
          }
            ∷ [])
          [] w1)
