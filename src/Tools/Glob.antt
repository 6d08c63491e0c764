-- ===== src/Tools/Glob.antt =====
-- crates/agent-core/src/builtins/glob_tool.rs: the paths that match a pattern.
use edgeclaw.Prelude.{ℕ, String, List, length, take, leb, if◌then◌else◌, unwrap_or, is_empty}
use edgeclaw.Prelude.Text.{◌<>◌, join, decimal, starts_with}
use edgeclaw.Json.{Value, get_str}
use edgeclaw.Types.{ToolResult, Result, ok, err, require_str, ok_result, err_result}

abbrev pub max_results : ℕ
max_results = 1000

unfoldable pub full_pattern : String → String → String
full_pattern base pattern = if starts_with "/" pattern then pattern else base <> "/" <> pattern

unfoldable pub reply : List String → ToolResult
reply matches =
    if is_empty matches
    then ok_result "No files matched the pattern."
    else if leb max_results (length matches)
    then ok_result (join "\n" matches <> "\n\n(truncated at " <> decimal max_results <> " results)")
    else ok_result (join "\n" matches)

-- The glob crate: the paths that could be read, or why the pattern is not one.
module _ (glob : String → Result (List String) String) (input : Value) where
  unfoldable pub matched : Result (List String) String → ToolResult
  unfolding reply
  matched (err e) = err_result ("Invalid glob pattern: " <> e)
  matched (ok paths) = reply (take max_results paths)

  unfoldable pub with_pattern : Result String ToolResult → ToolResult
  unfolding matched full_pattern
  with_pattern (err e) = e
  with_pattern (ok pattern) =
      matched (glob (full_pattern (unwrap_or (get_str input "path") ".") pattern))

  -- `GlobTool::execute`.
  unfoldable pub glob_files : ToolResult
  unfolding with_pattern require_str
  glob_files = with_pattern (require_str input "pattern")
