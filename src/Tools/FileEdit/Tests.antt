-- ===== src/Tools/FileEdit/Tests.antt =====
-- An edit of a file with one match, and the count where matches overlap.
use edgeclaw.Prelude.{String, ◌≡◌, refl}
use edgeclaw.Prelude.Text.{split_once, strip_prefix}
use edgeclaw.Json.{object, string, field, end}
use edgeclaw.Types.{ok, err_result, require_str}
use edgeclaw.Tools.FileEdit.{Files, count, execute}

-- One file, whose path does not matter.
abbrev files : Files String
files = record { read_to_string = λ path w. ok w; write = λ path content w. (ok tt, content) }

overlapping : count "aa" "aaa" ≡ 1
unfolding count split_once strip_prefix
overlapping = refl

missing :
    execute files (object (field "path" (string "a") end)) "text"
    ≡ (err_result "Missing required field: old_text", "text")
unfolding execute require_str
missing = refl
