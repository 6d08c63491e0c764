-- ===== src/Tools/Bash.antt =====
-- crates/agent-core/src/builtins/bash.rs: the reply to a command, from what it wrote.
use edgeclaw.Prelude.{ℕ, String, Option, none, some, Bool, not, str_eq, if◌then◌else◌, unwrap_or}
use edgeclaw.Prelude.Text.{◌<>◌, decimal}
use edgeclaw.Json.{Value, get_u64}
use edgeclaw.Types.{ToolResult, Result, ok, err, require_str, err_result}

-- The texts of what a command wrote, and whether it succeeded.
pub record Output : Type 0 where
  pub stdout : String
  pub stderr : String
  pub success : Bool

-- The run of `sh -c`, with a time in milliseconds, which is `none` if it is over.
abbrev pub Shell : Type 0 → Type 0
Shell W = String → ℕ → W → Option (Result Output String) × W

abbrev pub default_timeout : ℕ
default_timeout = 120000

unfoldable pub with_stderr : String → String → String
with_stderr content stderr =
    if str_eq stderr ""
    then content
    else if str_eq content ""
    then "STDERR:\n" <> stderr
    else content <> "\nSTDERR:\n" <> stderr

unfoldable pub content_of : Output → String
unfolding with_stderr
content_of output =
    let content = with_stderr output.stdout output.stderr in
    if str_eq content "" then "(no output)" else content

unfoldable pub command_result : ℕ → Option (Result Output String) → ToolResult
unfolding content_of
command_result timeout (some (ok output)) = record {
  tool_use_id = "";
  content = content_of output;
  is_error = not output.success;
}
command_result timeout (some (err e)) = err_result ("Failed to execute command: " <> e)
command_result timeout none = err_result ("Command timed out after " <> decimal timeout <> "ms")

module _ {W : Type 0} (shell : Shell W) (input : Value) where
  unfoldable pub run_command : Result String ToolResult → W → ToolResult × W
  unfolding command_result
  run_command (err e) w = (e, w)
  run_command (ok command) w =
      let timeout = unwrap_or (get_u64 input "timeout_ms") default_timeout in
      let (r, w') = shell command timeout w in (command_result timeout r, w')

  -- `BashTool::execute`.
  unfoldable pub bash : W → ToolResult × W
  unfolding run_command require_str
  bash w = run_command (require_str input "command") w
