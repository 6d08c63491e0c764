-- ===== src/Tools/FileRead/Laws.antt =====
-- The part of a file that file_read returns, line by line.
use edgeclaw.Prelude.{
  ℕ, zero, suc, ◌+◌, String, ◌≡◌, refl, sym, ap, ◌∙◌, Option, none, some, List, [], ◌∷◌, take, drop,
  unwrap_or, arith, Bool, true, false, ltb,
}
use edgeclaw.Prelude.Text.{◌<>◌, join, lines, decimal}
use edgeclaw.Json.{Value, get_u64}
use edgeclaw.Types.{ok, require_str, ok_result}
use edgeclaw.Tools.FileRead.{
  number_lines, select, read_lines, ReadToString, read_content, read_path, read_file,
}

-- The line at a place, counted from 0.
abbrev pub line_at : List String → ℕ → Option String
line_at [] i = none
line_at (x ∷ xs) zero = some x
line_at (x ∷ xs) (suc i) = line_at xs i

-- A line behind a tab and its number, where lines are counted from 1.
abbrev pub numbered : ℕ → Option String → Option String
numbered i none = none
numbered i (some line) = some (decimal (i + 1) <> "\t" <> line)

abbrev pub within : Option ℕ → ℕ → Bool
within none i = true
within (some limit) i = ltb i limit

-- Of the file's lines, the one that stands at a place of the reply: the line so far behind `offset`, up to `limit`.
abbrev pub returned : ℕ → Option ℕ → List String → ℕ → Option String
returned offset limit xs i = elim (within limit i) [
  | true ↦ numbered (offset + i) (line_at xs (offset + i))
  | false ↦ none
]

line_at-number_lines :
    (before i : ℕ) (xs : List String)
    → line_at (number_lines before xs) i ≡ numbered (before + i) (line_at xs i)
unfolding number_lines
line_at-number_lines before i [] = refl
line_at-number_lines before zero (x ∷ xs) =
    ap (λ n. some (decimal (n + 1) <> "\t" <> x)) (omega arith)
line_at-number_lines before (suc i) (x ∷ xs) =
    line_at-number_lines (before + 1) i xs ∙ ap (λ n. numbered n (line_at xs i)) (omega arith)

line_at-drop : (n i : ℕ) (xs : List String) → line_at (drop n xs) i ≡ line_at xs (n + i)
line_at-drop zero i xs = ap (line_at xs) (omega arith)
line_at-drop (suc n) i [] = refl
line_at-drop (suc n) i (x ∷ xs) =
    let e : suc (n + i) ≡ suc n + i = omega arith in line_at-drop n i xs ∙ ap (line_at (x ∷ xs)) e

abbrev kept : Bool → Option String → Option String
kept b o = elim b [ true ↦ o | false ↦ none ]

kept-none : (b : Bool) → kept b none ≡ none
kept-none true = refl
kept-none false = refl

line_at-take : (n i : ℕ) (xs : List String) → line_at (take n xs) i ≡ kept (ltb i n) (line_at xs i)
line_at-take zero i xs = let e : false ≡ ltb i 0 = ground arith in ap (λ b. kept b (line_at xs i)) e
line_at-take (suc n) i [] = sym (kept-none (ltb i (suc n)))
line_at-take (suc n) zero (x ∷ xs) =
    let e : true ≡ ltb 0 (suc n) = ground arith in ap (λ b. kept b (some x)) e
line_at-take (suc n) (suc i) (x ∷ xs) =
    let e : ltb i n ≡ ltb (suc i) (suc n) = ground arith in
    line_at-take n i xs ∙ ap (λ b. kept b (line_at xs i)) e

numbered-kept :
    (i : ℕ) (b : Bool) (o : Option String) → numbered i (kept b o) ≡ kept b (numbered i o)
numbered-kept i true o = refl
numbered-kept i false o = refl

line_at-select :
    (offset : ℕ) (limit : Option ℕ) (xs : List String) (i : ℕ)
    → line_at (select offset limit xs) i ≡ kept (within limit i) (line_at xs (offset + i))
unfolding select
line_at-select offset none xs i = line_at-drop offset i xs
line_at-select offset (some limit) xs i =
    line_at-take limit i (drop offset xs) ∙ ap (kept (ltb i limit)) (line_at-drop offset i xs)

-- Where the path is there and the file can be read, the reply is of lines, of which the one at each place is the line
-- of the file that stands so far behind `offset`, with its number in the file, counted from 1, in front of it and a
-- tab; and there is none where `limit` or the file ends. Without `offset` it is 0, and without `limit` there is none.
pub read_file-numbered :
    (read_to_string : ReadToString) (input : Value) (path content : String)
    → require_str input "path" ≡ ok path
    → read_to_string path ≡ ok content
    → (shown : List String) × (read_file read_to_string input ≡ ok_result (join "\n" shown))
      × ((i : ℕ)
          → line_at shown i
            ≡ returned
                (unwrap_or (get_u64 input "offset") 0)
                (get_u64 input "limit")
                (lines content)
                i)
unfolding read_file read_path read_content read_lines
read_file-numbered read_to_string input path content p r =
    let offset : ℕ = unwrap_or (get_u64 input "offset") 0 in
    let limit : Option ℕ = get_u64 input "limit" in
    let xs : List String = lines content in
    (
      number_lines offset (select offset limit xs),
      rw (p, r) refl,
      λ i.
          line_at-number_lines offset i (select offset limit xs)
          ∙ ap (numbered (offset + i)) (line_at-select offset limit xs i)
          ∙ numbered-kept (offset + i) (within limit i) (line_at xs (offset + i)),
    )
