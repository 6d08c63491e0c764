-- ===== src/Tools/FileRead.antt =====
-- crates/agent-core/src/builtins/file_read.rs: the numbered lines of a file. `usize` has 64 bits.
pub mod Laws
mod Tests
use edgeclaw.Prelude.{
  ℕ, zero, suc, ◌+◌, String, Option, none, some, List, [], ◌∷◌, take, drop, unwrap_or,
}
use edgeclaw.Prelude.Text.{◌<>◌, join, lines, decimal}
use edgeclaw.Json.{Value, get_u64}
use edgeclaw.Types.{ToolResult, Result, ok, err, require_str, ok_result, err_result}

-- The lines behind a number of others, each with its own number.
unfoldable pub number_lines : ℕ → List String → List String
number_lines before [] = []
number_lines before (line ∷ rest) =
    (decimal (before + 1) <> "\t" <> line) ∷ number_lines (before + 1) rest

unfoldable pub select : ℕ → Option ℕ → List String → List String
select offset (some limit) xs = take limit (drop offset xs)
select offset none xs = drop offset xs

unfoldable pub read_lines : ℕ → Option ℕ → String → ToolResult
unfolding number_lines select
read_lines offset limit content =
    ok_result (join "\n" (number_lines offset (select offset limit (lines content))))

-- tokio's `read_to_string`; a failure is its text.
abbrev pub ReadToString : Type 0
ReadToString = String → Result String String

module _ (read_to_string : ReadToString) (input : Value) where
  unfoldable pub read_content : String → Result String String → ToolResult
  unfolding read_lines
  read_content path (err e) = err_result ("Failed to read file '" <> path <> "': " <> e)
  read_content path (ok content) =
      read_lines (unwrap_or (get_u64 input "offset") 0) (get_u64 input "limit") content

  unfoldable pub read_path : Result String ToolResult → ToolResult
  unfolding read_content
  read_path (err e) = e
  read_path (ok path) = read_content path (read_to_string path)

  -- `FileReadTool::execute`.
  unfoldable pub read_file : ToolResult
  unfolding read_path require_str
  read_file = read_path (require_str input "path")
