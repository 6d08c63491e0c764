-- ===== src/Cli/Config/Edits.antt =====
-- crates/edgeclaw-cli/src/config/set.rs and connector.rs: the commands that change the configuration, each the changed
-- configuration and the line that is printed. `run_change` of File loads and saves around them.
pub mod Names
mod Tests
use edgeclaw.Prelude.{
  ℕ, String, Option, none, some, Bool, true, false, not, List, [], ◌∷◌, ◌++◌, any, retain, length,
  str_eq, ◌==◌, if◌then◌else◌, is_empty, unwrap_or,
}
use edgeclaw.Prelude.Int.{ℤ}
use edgeclaw.Prelude.Text.{◌<>◌, to_lowercase}
use edgeclaw.Types.{Result, ok, err, map_err}
use edgeclaw.Handlers.Html.{replace_char}
use edgeclaw.Cli.Config.{
  EdgeclawConfig, ModelConfig, PersonalityConfig, ApprovalMode, ConnectorConfig, telegram, discord,
  slack, connector_name,
}

-- What a command makes of a configuration.
abbrev pub Change : Type 0
Change = EdgeclawConfig → Result (EdgeclawConfig × String) String

-- An option that is not given leaves the value.
abbrev pub or_else : {A : Type 0} → Option A → Option A → Option A
or_else none old = old
or_else (some v) old = some v

-- `run_set_model`; the options are those of the section.
unfoldable pub set_model : ModelConfig → Change
set_model opts config = ok (
  record config {
    model = record {
      provider = or_else opts.provider config.model.provider;
      model = or_else opts.model config.model.model;
      api_key = or_else opts.api_key config.model.api_key;
      base_url = or_else opts.base_url config.model.base_url;
      max_tokens = or_else opts.max_tokens config.model.max_tokens;
      temperature = or_else opts.temperature config.model.temperature;
    };
  },
  "Updated [model] section.",
)

-- The identity of `run_set_personality`: a file goes before a text.
unfoldable pub identity_of :
    (String → Result String String)
    → (identity identity_file : Option String) → Result String String
identity_of read text (some path) =
    map_err (λ e. "failed to read identity file '" <> path <> "': " <> e) (read path)
identity_of read (some text) none = ok text
identity_of read none none = err "either --identity or --identity-file is required"

-- The first personality of the name gets the identity.
unfoldable pub update_personality :
    String → String → List PersonalityConfig → List PersonalityConfig
update_personality name identity [] = []
update_personality name identity (p ∷ ps) =
    let rest = update_personality name identity ps in
    if str_eq p.name name then record p { identity = identity } ∷ ps else p ∷ rest

unfoldable pub put_personality : String → String → EdgeclawConfig → EdgeclawConfig × String
unfolding update_personality
put_personality name identity config =
    if any (λ p. str_eq p.name name) config.personalities
    then (
      record config { personalities = update_personality name identity config.personalities },
      "Updated personality '" <> name <> "'.",
    )
    else (
      record config {
        personalities = config.personalities ++ record { name = name; identity = identity } ∷ [];
      },
      "Added personality '" <> name <> "'.",
    )

-- `run_set_personality`; its line is printed before the configuration is saved.
unfoldable pub set_personality :
    (String → Result String String) → String → (identity identity_file : Option String) → Change
unfolding identity_of put_personality
set_personality read name text file config = elim (identity_of read text file) [
  | err e ↦ err e
  | ok identity ↦ ok (put_personality name identity config)
]

-- `run_set_approval`.
unfoldable pub set_approval : ApprovalMode → Change
set_approval mode config = ok (
  record config { approval = record config.approval { mode = mode } },
  "Updated [approval] section.",
)

-- `run_set_tools_enable` and `run_set_tools_disable`.
unfoldable pub enable_tool : String → Change
enable_tool tool config = ok (
  if any (λ t. str_eq t tool) config.tools.enabled
      then config
      else record config { tools = record { enabled = config.tools.enabled ++ tool ∷ [] } },
  "Enabled tool '" <> tool <> "'.",
)

unfoldable pub disable_tool : String → Change
disable_tool tool config = ok (
  record config {
    tools = record { enabled = retain (λ t. not (str_eq t tool)) config.tools.enabled };
  },
  "Disabled tool '" <> tool <> "'.",
)

-- `run_connector_add`, `run_connector_remove` and `run_connector_test`.
abbrev pub is_named : String → ConnectorConfig → Bool
is_named name c = str_eq (connector_name c) name

unfoldable pub add_connector : ConnectorConfig → Change
add_connector c config =
    let name = connector_name c in
    if any (is_named name) config.connectors
    then err ("connector '" <> name <> "' already exists")
    else ok (
      record config { connectors = config.connectors ++ c ∷ [] },
      "Added connector '" <> name <> "'.",
    )

unfoldable pub remove_connector : String → Change
remove_connector name config =
    let kept = retain (λ c. not (is_named name c)) config.connectors in
    if length kept == length config.connectors
    then err ("connector '" <> name <> "' not found")
    else ok (record config { connectors = kept }, "Removed connector '" <> name <> "'.")

unfoldable pub test_connector : String → EdgeclawConfig → Result String String
test_connector name config =
    if any (is_named name) config.connectors
    then ok ("Connector '" <> name <> "' configuration looks valid.")
    else err ("connector '" <> name <> "' not found")

-- `ConnectorAddOpts`.
pub record ConnectorAddOpts : Type 0 where
  pub connector_type : String
  pub name : String
  pub token : Option String
  pub allowed_chat_ids : Option (List ℤ)
  pub guild_id : Option String
  pub channel_id : Option String
  pub app_token : Option String
  pub bot_token : Option String
  pub channel : Option String

-- `prompt` is what the terminal answers.
module _ (prompt : String → Result String String) (is_tty : Bool) where
  unfoldable pub require_or_prompt : Option String → String → Result String String
  unfolding replace_char to_lowercase
  require_or_prompt (some v) label = ok v
  require_or_prompt none label =
      if is_tty
      then prompt (label <> ":")
      else err (
          "--"
          <> replace_char b' ' "-" (to_lowercase label)
          <> " is required in non-interactive mode")

  -- Two answers in turn; the second is not asked for where the first failed.
  abbrev pub both :
      Result String String
      → Result String String
      → (String → String → ConnectorConfig)
      → Result ConnectorConfig String
  both (err e) second make = err e
  both (ok a) (err e) make = err e
  both (ok a) (ok b) make = ok (make a b)

  -- `build_connector_from_args`.
  unfoldable pub build_connector_from_args : ConnectorAddOpts → Result ConnectorConfig String
  unfolding require_or_prompt
  build_connector_from_args opts =
      if str_eq opts.connector_type "telegram"
      then elim (require_or_prompt opts.token "Bot token") [
        | err e ↦ err e
        | ok token ↦ ok (telegram opts.name token (unwrap_or opts.allowed_chat_ids []))
      ]
      else if str_eq opts.connector_type "discord"
      then both (require_or_prompt opts.token "Bot token")
          (require_or_prompt opts.guild_id "Guild ID")
          (λ token guild_id. discord opts.name token guild_id opts.channel_id)
      else if str_eq opts.connector_type "slack"
      then both (require_or_prompt opts.app_token "App token")
          (require_or_prompt opts.bot_token "Bot token")
          (λ app_token bot_token. slack opts.name app_token bot_token opts.channel)
      else err (
          "unknown connector type: '" <> opts.connector_type
          <> "'. Expected: telegram, discord, slack")
