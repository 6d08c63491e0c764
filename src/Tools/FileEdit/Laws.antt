-- ===== src/Tools/FileEdit/Laws.antt =====
-- What an edit does to a file.
use Prim.Native.Char.{Char}
use edgeclaw.Prelude.{String, ◌≡◌, true, false, ◌⊎◌}
use edgeclaw.Prelude.Text.{◌<>◌, contains}
use edgeclaw.Types.{ToolResult}
use edgeclaw.Tools.FileEdit.{Files, count, write_back}

module _ {W : Type 0} (files : Files W) where
  -- The reply is an error, and nothing is written; or the text stands in the file, not again behind that
  -- place, and what is written is the file with the new text there.
  abbrev pub Edited : (path old_text new_text content : String) → W → ToolResult × W → Type 0
  Edited path old_text new_text content w reply =
      ((reply.0.is_error ≡ true) × (reply.1 ≡ w) × ((count old_text content ≡ 1) → ⊥))
      ⊎ ((before : String) × (behind : String) × (content ≡ before <> (old_text <> behind))
          × (contains old_text behind ≡ false)
          × (reply ≡ write_back files path (before <> new_text <> behind) w))
