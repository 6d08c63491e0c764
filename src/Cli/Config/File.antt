-- ===== src/Cli/Config/File.antt =====
-- crates/edgeclaw-cli/src/config/mod.rs: the file of the configuration, read and written.
pub mod Atomic
use edgeclaw.Prelude.{String, Option, none, some, Bool, true, false}
use edgeclaw.Prelude.Text.{◌<>◌}
use edgeclaw.Types.{Result, ok, err, map_err}
use edgeclaw.Cli.Config.{EdgeclawConfig, default}

-- std::fs and std::path, of which a failure is its text; `display` of a path is the path.
pub record Fs (W : Type 0) : Type 0 where
  pub is_file : String → W → Bool
  pub read_to_string : String → W → Result String String
  pub create_dir_all : String → W → Result (Unit {0}) String × W
  pub write : String → String → W → Result (Unit {0}) String × W
  pub rename : (from to : String) → W → Result (Unit {0}) String × W
  pub parent : String → Option String
  pub with_extension : String → String → String

-- The toml crate.
pub record Toml : Type 0 where
  pub from_str : String → Result EdgeclawConfig String
  pub to_string_pretty : EdgeclawConfig → Result String String

-- `with_context`, whose text stands before the cause.
abbrev pub context : {A : Type 0} → String → Result A String → Result A String
context msg r = map_err (λ e. msg <> ": " <> e) r

module _ {W : Type 0} (fs : Fs W) (toml : Toml) (path : String) where
  unfoldable pub parse_config : Result String String → Result EdgeclawConfig String
  parse_config (err e) = err ("failed to read config file: " <> path <> ": " <> e)
  parse_config (ok contents) =
      context ("failed to parse config file: " <> path) (toml.from_str contents)

  -- `load_config`: the defaults where there is no file.
  unfoldable pub load_config : W → Result EdgeclawConfig String
  unfolding parse_config
  load_config w = elim (fs.is_file path w) [
    | false ↦ ok default
    | true ↦ parse_config (fs.read_to_string path w)
  ]

  abbrev pub tmp_path : String
  tmp_path = fs.with_extension path "toml.tmp"

  unfoldable pub rename_tmp : Result (Unit {0}) String × W → Result (Unit {0}) String × W
  rename_tmp (err e, w) = (err ("failed to write temp config file: " <> tmp_path <> ": " <> e), w)
  rename_tmp (ok u, w) =
      let (r, w') = fs.rename tmp_path path w in
      (context ("failed to rename temp config to: " <> path) r, w')

  unfoldable pub write_tmp : Result String String → W → Result (Unit {0}) String × W
  unfolding rename_tmp
  write_tmp (err e) w = (err ("failed to serialize config: " <> e), w)
  write_tmp (ok content) w = rename_tmp (fs.write tmp_path content w)

  unfoldable pub make_parent : Option String → W → Result (Unit {0}) String × W
  make_parent none w = (ok tt, w)
  make_parent (some parent) w =
      let (r, w') = fs.create_dir_all parent w in
      (context ("failed to create config directory: " <> parent) r, w')

  unfoldable pub save_in :
      EdgeclawConfig → Result (Unit {0}) String × W → Result (Unit {0}) String × W
  unfolding write_tmp
  save_in config (err e, w) = (err e, w)
  save_in config (ok u, w) = write_tmp (toml.to_string_pretty config) w

  -- `save_config`.
  unfoldable pub save_config : EdgeclawConfig → W → Result (Unit {0}) String × W
  unfolding save_in make_parent
  save_config config w = save_in config (make_parent (fs.parent path) w)

  -- A command that changes the configuration: it is loaded, changed and saved. The reply is what is printed.
  unfoldable pub changed : EdgeclawConfig × String → W → Result String String × W
  unfolding save_config
  changed (config, printed) w =
      let (r, w') = save_config config w in (elim r [ ok u ↦ ok printed | err e ↦ err e ], w')

  unfoldable pub run_change :
      (EdgeclawConfig → Result (EdgeclawConfig × String) String) → W → Result String String × W
  unfolding load_config changed
  run_change change w = elim (load_config w) [
    | err e ↦ (err e, w)
    | ok config ↦ elim (change config) [ err e ↦ (err e, w) | ok c ↦ changed c w ]
  ]

-- `apply_env_overrides`.
unfoldable pub apply_env_overrides : Option String → EdgeclawConfig → EdgeclawConfig
apply_env_overrides none config = config
apply_env_overrides (some key) config = record config {
  model = record config.model { api_key = some key };
}
