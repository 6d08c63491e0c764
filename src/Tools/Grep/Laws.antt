-- ===== src/Tools/Grep/Laws.antt =====
-- What a search finds, whatever its early ends.
use edgeclaw.Prelude.{ℕ, ◌+◌, String, Option, Bool, List, [], ◌∷◌, ◌++◌, if◌then◌else◌}
use edgeclaw.Prelude.Text.{lines}
use edgeclaw.Types.{ok, err}
use edgeclaw.Tools.Grep.{Entry, Searcher, shown_line, is_searched}

module _ {R : Type 0} (s : Searcher R) (regex : R) where
  -- All the matching lines, in their order, each with its file and its number.
  abbrev pub lines_found : String → ℕ → List String → List String
  lines_found path before [] = []
  lines_found path before (line ∷ rest) =
      if s.is_match regex line
      then shown_line path before line ∷ lines_found path (before + 1) rest
      else lines_found path (before + 1) rest

  abbrev pub file_found : String → List String
  file_found path = elim (s.read_to_string path) [
    | err e ↦ []
    | ok content ↦ lines_found path 0 (lines content)
  ]

  module _ (max : ℕ) where
    abbrev pub entries_found : Option (String → Bool) → List Entry → List String
    entries_found filter [] = []
    entries_found filter (entry ∷ entries) =
        if is_searched s regex max filter entry
        then file_found entry.path ++ entries_found filter entries
        else entries_found filter entries

    abbrev pub found : Option (String → Bool) → String → List String
    found filter path =
        if s.is_file path then file_found path else entries_found filter (s.walk path)
