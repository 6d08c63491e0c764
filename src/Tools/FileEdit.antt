-- ===== src/Tools/FileEdit.antt =====
-- crates/agent-core/src/builtins/file_edit.rs: the replacement of a text that stands once in a file.
pub mod Laws
mod Tests
use edgeclaw.Prelude.{ℕ, zero, suc, ◌+◌, String, Option, none, some, Bool, ◌==◌, if◌then◌else◌}
use edgeclaw.Prelude.Text.{◌<>◌, size, split_once, decimal}
use edgeclaw.Json.{Value}
use edgeclaw.Types.{ToolResult, Result, ok, err, require_str, ok_result, err_result}

-- tokio's `read_to_string` and `write`; a failure is its text.
pub record Files (W : Type 0) : Type 0 where
  pub read_to_string : String → W → Result String String
  pub write : String → String → W → Result (Unit {0}) String × W

-- `content.matches(old).count()`, which goes on behind each match; the empty text matches at every
-- position. The fuel bounds the number of matches.
unfoldable pub count_fuel : ℕ → String → String → ℕ
count_fuel zero old content = 0
count_fuel (suc n) old content = elim (split_once old content) [
  | none ↦ 0
  | some (before, behind) ↦ suc (count_fuel n old behind)
]

unfoldable pub count : String → String → ℕ
unfolding count_fuel
count old content = count_fuel (suc (size content)) old content

-- `content.replacen(old, new, 1)`.
unfoldable pub replace_first : String → String → String → String
replace_first old new content = elim (split_once old content) [
  | none ↦ content
  | some (before, behind) ↦ before <> new <> behind
]

module _ {W : Type 0} (files : Files W) where
  unfoldable pub write_back : String → String → W → ToolResult × W
  write_back path updated w =
      let (r, w') = files.write path updated w in
      elim r [
        | ok u ↦ (ok_result ("Successfully edited " <> path), w')
        | err e ↦ (err_result ("Failed to write file '" <> path <> "': " <> e), w')
      ]

  -- By the number of matches.
  unfoldable pub edit_counted : ℕ → (path old_text new_text content : String) → W → ToolResult × W
  unfolding replace_first write_back
  edit_counted zero path old_text new_text content w =
      (err_result ("old_text not found in '" <> path <> "'"), w)
  edit_counted (suc zero) path old_text new_text content w =
      write_back path (replace_first old_text new_text content) w
  edit_counted (suc (suc m)) path old_text new_text content w = (
    err_result (
        "old_text matches "
        <> decimal (suc (suc m))
        <> " times in '"
        <> path
        <> "' — must be unique. Provide more surrounding context to make it unique."),
    w,
  )

  unfoldable pub edit_content : (path old_text new_text content : String) → W → ToolResult × W
  unfolding count edit_counted
  edit_content path old_text new_text content w =
      edit_counted (count old_text content) path old_text new_text content w

  unfoldable pub edit : (path old_text new_text : String) → W → ToolResult × W
  unfolding edit_content
  edit path old_text new_text w = elim (files.read_to_string path w) [
    | err e ↦ (err_result ("Failed to read file '" <> path <> "': " <> e), w)
    | ok content ↦ edit_content path old_text new_text content w
  ]

  -- The arguments are taken in turn; the first that is missing is the answer.
  abbrev with_new : String → String → Result String ToolResult → W → ToolResult × W
  unfolding edit
  with_new path old_text (err e) w = (e, w)
  with_new path old_text (ok new_text) w = edit path old_text new_text w

  abbrev with_old : Value → String → Result String ToolResult → W → ToolResult × W
  unfolding with_new
  with_old input path (err e) w = (e, w)
  with_old input path (ok old_text) w = with_new path old_text (require_str input "new_text") w

  abbrev with_path : Value → Result String ToolResult → W → ToolResult × W
  unfolding with_old
  with_path input (err e) w = (e, w)
  with_path input (ok path) w = with_old input path (require_str input "old_text") w

  unfoldable pub execute : Value → W → ToolResult × W
  unfolding with_path require_str
  execute input w = with_path input (require_str input "path") w
