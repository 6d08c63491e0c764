-- ===== src/Tools/Grep/Tests.antt =====
-- A directory of two files and a folder, with a limit of three lines.
use edgeclaw.Prelude.{String, ◌≡◌, refl, none, true, false, [], ◌∷◌}
use edgeclaw.Prelude.Text.{lines, strip_prefix, contains, decimal}
use edgeclaw.Types.{ok}
use edgeclaw.Tools.Grep.{
  Searcher, search_lines, search_file, is_searched, search_entries, search, shown_line,
}

abbrev searcher : Searcher String
searcher = record {
  regex = λ p. ok p;
  is_match = λ r line. contains r line;
  glob = λ g. none;
  is_file = λ path. false;
  walk = λ path.
      record { is_file = true; file_name = "a"; path = "./a" }
      ∷ record { is_file = false; file_name = "d"; path = "./d" }
      ∷ record { is_file = true; file_name = "b"; path = "./b" }
      ∷ [];
  read_to_string = λ path. ok "one\ntwo\nno one\n";
}

two : search searcher "one" 3 none "." ≡ "./a:1:one" ∷ "./a:3:no one" ∷ "./b:1:one" ∷ []
unfolding search search_entries search_file search_lines is_searched shown_line lines strip_prefix
    contains decimal
two = refl
