-- ===== src/Handlers/Html.antt =====
-- crates/edgeclaw-server/src/handlers.rs: `html_escape`, for the texts of a page.
pub mod Laws
mod Tests
use Prim.Native.Char.{Char, code}
use Prim.Native.String.{String, [], ◌∷◌}
use edgeclaw.Prelude.{ℕ, ◌==◌, if◌then◌else◌}
use edgeclaw.Prelude.Text.{◌<>◌}

-- `s.replace(c, to)`.
unfoldable pub replace_char : ℕ → String → String → String
replace_char c to [] = []
replace_char c to (x ∷ s) =
    let rest = replace_char c to s in if code x == c then to <> rest else x ∷ rest

unfoldable pub html_escape : String → String
unfolding replace_char
html_escape s = replace_char b'\'' "&#x27;" (
    replace_char b'"' "&quot;"
      (replace_char b'>' "&gt;" (replace_char b'<' "&lt;" (replace_char b'&' "&amp;" s))))
