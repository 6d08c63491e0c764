-- ===== src/Prelude/Text.antt =====
-- What the program uses of Rust's `str`, over the native texts: a text is a list of `char`s.
pub mod Laws
pub mod Trims
mod Tests
use Prim.Native.Nat.{ℕ, zero, suc, ◌/◌, ◌%◌}
use Prim.Native.Char.{Char, code}
use Prim.Native.String.{String, [], ◌∷◌}
use mathlib.Core.Path.{◌≡◌, refl, ap}
use mathlib.Core.Bool.{Bool, true, false, ◌||◌, ◌&&◌}
use mathlib.Core.Option.{Option, none, some}
use mathlib.Core.List
use mathlib.Core.List.{List}
use native.Mathlib.Omega.{arith}
use edgeclaw.Prelude.Tests.{char_eq, is_some, leb, ltb, ◌==◌, if◌then◌else◌, unwrap_or, str_eq}

-- Concatenation, `push_str` and `format!`, which computes at a variable too.
infixr 65 ◌<>◌
abbrev pub ◌<>◌ : String → String → String
[] <> t = t
(c ∷ s) <> t = c ∷ (s <> t)

-- The number of characters.
abbrev pub size : String → ℕ
size [] = 0
size (c ∷ s) = suc (size s)

-- `s.strip_prefix(p)`.
unfoldable pub strip_prefix : String → String → Option String
strip_prefix [] s = some s
strip_prefix (p ∷ ps) [] = none
strip_prefix (p ∷ ps) (c ∷ s) = if char_eq p c then strip_prefix ps s else none

-- `s.starts_with(p)`.
abbrev pub starts_with : String → String → Bool
starts_with p s = is_some (strip_prefix p s)

-- `s.strip_suffix(p)`.
unfoldable pub strip_suffix : String → String → Option String
strip_suffix p [] = if str_eq p [] then some [] else none
strip_suffix p (c ∷ s) =
    let rest = strip_suffix p s in
    if str_eq p (c ∷ s) then some [] else elim rest [ none ↦ none | some r ↦ some (c ∷ r) ]

-- `s.contains(p)`.
unfoldable pub contains : String → String → Bool
contains p [] = starts_with p []
contains p (c ∷ s) = starts_with p (c ∷ s) || contains p s

-- `p` is a part of `s`.
abbrev pub Occurs : String → String → Type 0
Occurs p s = (a : String) × (b : String) × (s ≡ a <> (p <> b))

abbrev pub cons_first : Char → Option (String × String) → Option (String × String)
cons_first c none = none
cons_first c (some (a, b)) = some (c ∷ a, b)

-- `s.split_once(sep)`: the texts before and behind the first occurrence.
unfoldable pub split_once : String → String → Option (String × String)
split_once sep [] = elim (strip_prefix sep []) [ none ↦ none | some rest ↦ some ("", rest) ]
split_once sep (c ∷ s) = elim (strip_prefix sep (c ∷ s)) [
  | none ↦ cons_first c (split_once sep s)
  | some rest ↦ some ("", rest)
]

-- `s.split(sep).last()`, whose fuel is the number of pieces at most.
unfoldable pub last_piece_fuel : ℕ → String → String → String
last_piece_fuel zero sep s = s
last_piece_fuel (suc n) sep s = elim (split_once sep s) [
  | none ↦ s
  | some (a, rest) ↦ last_piece_fuel n sep rest
]

unfoldable pub last_piece : String → String → String
unfolding last_piece_fuel
last_piece sep s = last_piece_fuel (size s) sep s

-- `s.join(sep)` of a list of texts.
abbrev pub join : String → List String → String
join sep List.[] = ""
join sep (List.◌∷◌ x List.[]) = x
join sep (List.◌∷◌ x (List.◌∷◌ y ys)) = x <> sep <> join sep (List.◌∷◌ y ys)

-- `char::to_lowercase`, of the characters whose lower case has an ASCII character in it: the
-- letters A to Z, the Kelvin sign and the dotted capital I. Any other character stays: neither it
-- nor its lower case can take part in a match of an ASCII text.
translate : String → String → Char → String
translate (u ∷ us) (l ∷ ls) c = if char_eq u c then l ∷ [] else translate us ls c
translate _ _ c = c ∷ []

unfoldable pub lower_char : Char → String
unfolding translate
lower_char c =
    if code c == 0x130
    then "i̇"
    else translate "ABCDEFGHIJKLMNOPQRSTUVWXYZK" "abcdefghijklmnopqrstuvwxyzk" c

-- `a.eq_ignore_ascii_case(b)`.
ascii_lowercase : String → String
unfolding translate
ascii_lowercase [] = []
ascii_lowercase (c ∷ s) =
    translate "ABCDEFGHIJKLMNOPQRSTUVWXYZ" "abcdefghijklmnopqrstuvwxyz" c <> ascii_lowercase s

unfoldable pub eq_ignore_ascii_case : String → String → Bool
unfolding ascii_lowercase
eq_ignore_ascii_case a b = str_eq (ascii_lowercase a) (ascii_lowercase b)

-- `s.to_lowercase()`.
unfoldable pub to_lowercase : String → String
unfolding lower_char
to_lowercase [] = []
to_lowercase (c ∷ s) = lower_char c <> to_lowercase s

-- `char::is_whitespace`: the Unicode property White_Space.
unfoldable pub is_whitespace : Char → Bool
is_whitespace c =
    (leb 9 (code c) && leb (code c) 13)
    || code c == 32
    || code c == 133
    || code c == 160
    || code c == 5760
    || (leb 8192 (code c) && leb (code c) 8202)
    || code c == 8232
    || code c == 8233
    || code c == 8239
    || code c == 8287
    || code c == 12288

-- `trim_start_matches(p)` and `trim_end_matches(p)`.
unfoldable pub trim_start_matches : (Char → Bool) → String → String
trim_start_matches p [] = []
trim_start_matches p (c ∷ s) = if p c then trim_start_matches p s else c ∷ s

abbrev drop_last : Bool → Char → String → String
drop_last b c [] = if b then [] else c ∷ []
drop_last b c (d ∷ s) = c ∷ d ∷ s

unfoldable pub trim_end_matches : (Char → Bool) → String → String
trim_end_matches p [] = []
trim_end_matches p (c ∷ s) = drop_last (p c) c (trim_end_matches p s)

unfoldable pub trim_start : String → String
unfolding trim_start_matches is_whitespace
trim_start = trim_start_matches is_whitespace

unfoldable pub trim : String → String
unfolding trim_start_matches trim_end_matches is_whitespace
trim s = trim_end_matches is_whitespace (trim_start_matches is_whitespace s)

-- `s.lines()`: a newline ends a line, and so does a carriage return with a newline behind it.
abbrev cons_head : Char → List String → List String
cons_head c List.[] = List.◌∷◌ (c ∷ []) List.[]
cons_head c (List.◌∷◌ l ls) = List.◌∷◌ (c ∷ l) ls

unfoldable pub lines : String → List String
lines [] = List.[]
lines (c ∷ s) =
    let rest = lines s in
    if code c == b'\n'
    then List.◌∷◌ [] rest
    else if code c == b'\r' && starts_with "\n" s
    then rest
    else cons_head c rest

-- `Display` of an unsigned number, whose fuel bounds the number of digits.
digit : ℕ → String
digit n =
    if n == 0
    then "0"
    else if n == 1
    then "1"
    else if n == 2
    then "2"
    else if n == 3
    then "3"
    else if n == 4
    then "4"
    else if n == 5
    then "5"
    else if n == 6
    then "6"
    else if n == 7
    then "7"
    else if n == 8
    then "8"
    else "9"

decimal_fuel : ℕ → ℕ → String
unfolding digit
decimal_fuel zero n = ""
decimal_fuel (suc k) n = elim (ltb n 10) [
  | true ↦ digit n
  | false ↦ decimal_fuel k (n / 10) <> digit (n % 10)
]

unfoldable pub decimal : ℕ → String
unfolding decimal_fuel
decimal n = decimal_fuel (suc n) n
