-- ===== src/Prelude/Text/Trims.antt =====
-- Laws of the trims, and of a search for a line's start.
use Prim.Native.Char.{Char}
use Prim.Native.String.{String, [], ◌∷◌}
use mathlib.Core.Path.{◌≡◌, refl}
use mathlib.Core.Bool.{Bool, false}
use native.Mathlib.Omega.{arith}
use mathlib.Core.Logic.{inl, inr}
use edgeclaw.Prelude.Tests.{Bool-cases}
use edgeclaw.Prelude.Text.{
  ◌<>◌, strip_prefix, contains, is_whitespace, trim_start_matches, trim_end_matches, trim,
}

trim_end-newline :
    (s : String) → trim_end_matches is_whitespace (s <> "\n") ≡ trim_end_matches is_whitespace s
unfolding trim_end_matches is_whitespace
trim_end-newline [] = refl
trim_end-newline (c ∷ s) = rw (trim_end-newline s)

-- A newline at the end is trimmed.
pub trim-newline : (s : String) → trim (s <> "\n") ≡ trim s
unfolding trim trim_start_matches trim_end_matches is_whitespace
trim-newline [] = refl
trim-newline (c ∷ s) = elim (Bool-cases (is_whitespace c)) [
  | inl e ↦ unfold trim trim_start_matches in rw e (trim-newline s)
  | inr e ↦ unfold trim trim_start_matches in rw e (trim_end-newline (c ∷ s))
]

-- So it is behind a text that is trimmed at its start first, if newlines are trimmed there.
module _ (p : Char → Bool) (newline : trim_start_matches p "\n" ≡ "") where
  pub trim-trim_start-newline :
      (s : String) → trim (trim_start_matches p (s <> "\n")) ≡ trim (trim_start_matches p s)
  unfolding trim_start_matches
  trim-trim_start-newline [] = rw newline
  trim-trim_start-newline (c ∷ s) = elim (Bool-cases (p c)) [
    | inl e ↦ rw e (trim-trim_start-newline s)
    | inr e ↦ rw e (trim-newline (c ∷ s))
  ]

-- A text without a newline holds no start of what begins with one.
pub contains-line :
    (r a t : String)
    → contains "\n" a ≡ false
    → contains ("\n" <> r) (a <> t) ≡ contains ("\n" <> r) t
unfolding contains strip_prefix
contains-line r [] t h = refl
contains-line r (c ∷ a) t h = ground (arith, contains-line r a t)
