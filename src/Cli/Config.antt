-- ===== src/Cli/Config.antt =====
-- crates/edgeclaw-cli/src/config/types.rs: the configuration. A temperature is the text of its number.
pub mod File
pub mod Edits
use edgeclaw.Prelude.{
  ℕ, String, Option, none, some, Bool, List, [], ◌∷◌, if◌then◌else◌, leb, str_eq,
}
use edgeclaw.Prelude.Int.{ℤ}
use edgeclaw.Prelude.Text.{◌<>◌}
use edgeclaw.Types.{Result, ok, err}

pub record ModelConfig : Type 0 where
  pub provider : Option String
  pub model : Option String
  pub api_key : Option String
  pub base_url : Option String
  pub max_tokens : Option ℕ
  pub temperature : Option String

pub record ServerSection : Type 0 where
  pub host : Option String
  pub port : Option ℕ

pub data ApprovalMode : Type 0 where
  always_ask auto_approve deny_all allowlist : ApprovalMode

pub record ApprovalConfig : Type 0 where
  pub mode : ApprovalMode
  pub allowed_tools : List String

pub record ToolsConfig : Type 0 where
  pub enabled : List String

pub record PersonalityConfig : Type 0 where
  pub name : String
  pub identity : String

pub data ConnectorConfig : Type 0 where
  telegram : (name token : String) → (allowed_chat_ids : List ℤ) → ConnectorConfig
  discord : (name token guild_id : String) → (channel_id : Option String) → ConnectorConfig
  slack : (name app_token bot_token : String) → (channel : Option String) → ConnectorConfig

pub record EdgeclawConfig : Type 0 where
  pub model : ModelConfig
  pub server : ServerSection
  pub approval : ApprovalConfig
  pub tools : ToolsConfig
  pub personalities : List PersonalityConfig
  pub connectors : List ConnectorConfig

-- `EdgeclawConfig::default`.
abbrev pub default : EdgeclawConfig
default = record {
  model = record {
    provider = none;
    model = none;
    api_key = none;
    base_url = none;
    max_tokens = none;
    temperature = none;
  };
  server = record { host = none; port = none };
  approval = record { mode = always_ask; allowed_tools = [] };
  tools = record { enabled = [] };
  personalities = [];
  connectors = [];
}

unfoldable pub display_mode : ApprovalMode → String
display_mode always_ask = "always-ask"
display_mode auto_approve = "auto-approve"
display_mode deny_all = "deny-all"
display_mode allowlist = "allowlist"

unfoldable pub mode_of : String → Result ApprovalMode String
mode_of s =
    if str_eq s "always-ask"
    then ok always_ask
    else if str_eq s "auto-approve"
    then ok auto_approve
    else if str_eq s "deny-all"
    then ok deny_all
    else if str_eq s "allowlist"
    then ok allowlist
    else err (
        "unknown approval mode: '" <> s
        <> "'. Expected: always-ask, auto-approve, deny-all, allowlist")

unfoldable pub connector_name : ConnectorConfig → String
connector_name (telegram name token ids) = name
connector_name (discord name token guild channel) = name
connector_name (slack name app_token bot_token channel) = name

unfoldable pub connector_type : ConnectorConfig → String
connector_type (telegram name token ids) = "telegram"
connector_type (discord name token guild channel) = "discord"
connector_type (slack name app_token bot_token channel) = "slack"
