-- ===== src/Tools/FileWrite.antt =====
-- crates/agent-core/src/builtins/file_write.rs: a file that is written, and the folders above it.
use edgeclaw.Prelude.{
  ℕ, ◌+◌, String, Option, none, some, Bool, true, false, if◌then◌else◌, ltb, code,
}
use Prim.Native.String.{[], ◌∷◌}
use edgeclaw.Prelude.Text.{◌<>◌, decimal}
use edgeclaw.Json.{Value}
use edgeclaw.Types.{ToolResult, Result, ok, err, require_str, ok_result, err_result}

-- The file system, and `Path::parent`.
pub record Folders (W : Type 0) : Type 0 where
  pub parent : String → Option String
  pub exists : String → W → Bool
  pub create_dir_all : String → W → Result (Unit {0}) String × W
  pub write : String → String → W → Result (Unit {0}) String × W

-- `content.len()`: the bytes of the characters in UTF-8.
unfoldable pub utf8_size : ℕ → ℕ
utf8_size c = if ltb c 0x80 then 1 else if ltb c 0x800 then 2 else if ltb c 0x10000 then 3 else 4

unfoldable pub len : String → ℕ
unfolding utf8_size
len [] = 0
len (c ∷ s) = utf8_size (code c) + len s

module _ {W : Type 0} (folders : Folders W) where
  unfoldable pub write_content : String → String → W → ToolResult × W
  unfolding len
  write_content path content w =
      let (r, w') = folders.write path content w in
      elim r [
        | ok u ↦
            (ok_result ("Successfully wrote " <> decimal (len content) <> " bytes to " <> path), w')
        | err e ↦ (err_result ("Failed to write file '" <> path <> "': " <> e), w')
      ]

  -- The folder above is made if it is not there.
  unfoldable pub make_parent : Option String → W → Result (Unit {0}) String × W
  make_parent none w = (ok tt, w)
  make_parent (some parent) w = elim (folders.exists parent w) [
    | true ↦ (ok tt, w)
    | false ↦ folders.create_dir_all parent w
  ]

  unfoldable pub write_at : String → String → Result (Unit {0}) String × W → ToolResult × W
  unfolding write_content
  write_at path content (err e, w) =
      (err_result ("Failed to create directories for '" <> path <> "': " <> e), w)
  write_at path content (ok u, w) = write_content path content w

  unfoldable pub with_content : String → Result String ToolResult → W → ToolResult × W
  unfolding write_at make_parent
  with_content path (err e) w = (e, w)
  with_content path (ok content) w = write_at path content (make_parent (folders.parent path) w)

  unfoldable pub with_path : Value → Result String ToolResult → W → ToolResult × W
  unfolding with_content require_str
  with_path input (err e) w = (e, w)
  with_path input (ok path) w = with_content path (require_str input "content") w

  -- `FileWriteTool::execute`.
  unfoldable pub file_write : Value → W → ToolResult × W
  unfolding with_path require_str
  file_write input w = with_path input (require_str input "path") w
