-- ===== src/Prelude/Text/Tests.antt =====
-- Runs of the text operations.
use mathlib.Core.Path.{◌≡◌, refl}
use edgeclaw.Prelude.Text.{split_once, strip_prefix, last_piece, to_lowercase, trim}

lower_test : to_lowercase "DD If=K" ≡ "dd if=k"
unfolding to_lowercase
lower_test = refl

piece_test : last_piece "__" "a__b___c" ≡ "_c"
unfolding last_piece split_once strip_prefix
piece_test = refl

trim_test : trim " \n a b\t " ≡ "a b"
unfolding trim
trim_test = refl
