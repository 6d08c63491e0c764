-- ===== src/Tools/Grep.antt =====
-- crates/agent-core/src/builtins/grep_tool.rs: the lines of files that match a pattern. The files do not change
-- during the search.
pub mod Laws
mod Tests
use edgeclaw.Prelude.{
  ℕ, suc, ◌+◌, String, Option, none, some, Bool, true, false, List, [], ◌∷◌, ◌++◌, length, leb,
  if◌then◌else◌, unwrap_or, is_empty,
}
use edgeclaw.Prelude.Text.{◌<>◌, join, lines, decimal}
use edgeclaw.Json.{Value, get_str}
use edgeclaw.Types.{ToolResult, Result, ok, err, require_str, ok_result, err_result}

-- An entry of walkdir that could be read.
pub record Entry : Type 0 where
  pub is_file : Bool
  pub file_name : String
  pub path : String

-- The regex, glob and walkdir crates, and the file system.
pub record Searcher (R : Type 0) : Type 0 where
  pub regex : String → Result R String
  pub is_match : R → String → Bool
  pub glob : String → Option (String → Bool)
  pub is_file : String → Bool
  pub walk : String → List Entry
  pub read_to_string : String → Result String String

abbrev pub max_results : ℕ
max_results = 250

unfoldable pub shown_line : String → ℕ → String → String
shown_line path before line = path <> ":" <> decimal (before + 1) <> ":" <> line

module _ {R : Type 0} (s : Searcher R) (regex : R) (max : ℕ) where
  -- The lines from one on, which has so many before it.
  unfoldable pub search_lines : String → ℕ → List String → List String → List String
  unfolding shown_line
  search_lines path before [] results = results
  search_lines path before (line ∷ rest) results = elim (s.is_match regex line) [
    | false ↦ search_lines path (before + 1) rest results
    | true ↦ elim (leb max (length (results ++ shown_line path before line ∷ []))) [
      | true ↦ results ++ shown_line path before line ∷ []
      | false ↦ search_lines path (before + 1) rest (results ++ shown_line path before line ∷ [])
    ]
  ]

  -- `search_file`: a file that cannot be read has no lines.
  unfoldable pub search_file : String → List String → List String
  unfolding search_lines
  search_file path results = elim (s.read_to_string path) [
    | err e ↦ results
    | ok content ↦ search_lines path 0 (lines content) results
  ]

  -- Whether a file is searched.
  unfoldable pub is_searched : Option (String → Bool) → Entry → Bool
  is_searched none entry = entry.is_file
  is_searched (some matches) entry = if entry.is_file then matches entry.file_name else false

  -- The loop over the entries of a directory.
  unfoldable pub search_entries : Option (String → Bool) → List Entry → List String → List String
  unfolding is_searched search_file
  search_entries filter [] results = results
  search_entries filter (entry ∷ entries) results = elim (is_searched filter entry) [
    | false ↦ search_entries filter entries results
    | true ↦ elim (leb max (length (search_file entry.path results))) [
      | true ↦ search_file entry.path results
      | false ↦ search_entries filter entries (search_file entry.path results)
    ]
  ]

  unfoldable pub search : Option (String → Bool) → String → List String
  unfolding search_file search_entries
  search filter path =
      if s.is_file path then search_file path [] else search_entries filter (s.walk path) []

unfoldable pub reply : List String → ToolResult
reply results =
    if is_empty results
    then ok_result "No matches found."
    else if leb max_results (length results)
    then ok_result (join "\n" results <> "\n\n(truncated at " <> decimal max_results <> " results)")
    else ok_result (join "\n" results)

abbrev pub glob_of : {R : Type 0} → Searcher R → Option String → Option (String → Bool)
glob_of s none = none
glob_of s (some g) = s.glob g

-- `GrepTool::execute`.
module _ {R : Type 0} (s : Searcher R) (input : Value) where
  unfoldable pub search_with : Result R String → ToolResult
  unfolding search reply
  search_with (err e) = err_result ("Invalid regex pattern: " <> e)
  search_with (ok regex) = reply (
      search s regex max_results (glob_of s (get_str input "glob"))
        (unwrap_or (get_str input "path") "."))

  unfoldable pub with_pattern : Result String ToolResult → ToolResult
  unfolding search_with
  with_pattern (err e) = e
  with_pattern (ok pattern) = search_with (s.regex pattern)

  unfoldable pub grep : ToolResult
  unfolding with_pattern require_str
  grep = with_pattern (require_str input "pattern")
