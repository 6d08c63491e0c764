-- ===== src/Tools/FileRead/Tests.antt =====
-- Two of the lines of a file, and a file that cannot be read.
use edgeclaw.Prelude.{ℕ, String, List, ◌≡◌, refl, some}
use edgeclaw.Prelude.Text.{join, lines, split_once, strip_prefix, decimal}
use edgeclaw.Json.{Value, object, string, unsigned, field, end}
use edgeclaw.Types.{ok, err, ok_result, err_result, require_str}
use edgeclaw.Tools.FileRead.{
  ReadToString, number_lines, select, read_lines, read_content, read_path, read_file,
}
use edgeclaw.Tools.FileRead.Laws.{line_at, returned, read_file-numbered}

abbrev readable : ReadToString
readable path = ok "one\ntwo\nthree\nfour\n"

abbrev second : Value
second =
    object
      (field "path" (string "a") (field "offset" (unsigned 1) (field "limit" (unsigned 2) end)))

refused : read_file (λ path. err "denied") second ≡ err_result "Failed to read file 'a': denied"
unfolding read_file read_path read_content require_str
refused = refl

two_lines : read_file readable second ≡ ok_result "2\ttwo\n3\tthree"
unfolding read_file read_path read_content read_lines number_lines select require_str lines
    split_once strip_prefix decimal
two_lines = refl

second-path : require_str second "path" ≡ ok "a"
unfolding require_str
second-path = refl

read_file-numbered_example :
    (shown : List String) × (read_file readable second ≡ ok_result (join "\n" shown))
    × ((i : ℕ) → line_at shown i ≡ returned 1 (some 2) (lines "one\ntwo\nthree\nfour\n") i)
read_file-numbered_example = read_file-numbered readable second "a" _ second-path refl
