-- ===== src/Prelude/Text/Laws.antt =====
-- Laws of `strip_prefix`, `contains`, `split_once` and `to_lowercase`.
use Prim.Native.Nat.{ℕ, zero, suc, ◌+◌, ◌≤◌, ◌<◌}
use Prim.Native.Char.{Char}
use Prim.Native.String.{String, [], ◌∷◌}
use mathlib.Core.Path.{◌≡◌, refl, ap, ap₂, sym, ◌∙◌, subst}
use mathlib.Core.Bool.{true, false}
use mathlib.Core.Option.{Option, none, some}
use mathlib.Core.Logic.{◌↔◌, inl, inr}
use native.Mathlib.Omega.{arith}
use text.Mathlib.TextEquality.{Char-path}
use edgeclaw.Prelude.Tests.{Option-cases}
use edgeclaw.Prelude.Text.{
  ◌<>◌, size, strip_prefix, starts_with, contains, split_once, cons_first, Occurs, to_lowercase,
  lower_char, last_piece, last_piece_fuel,
}

pub <>_assoc : (a b c : String) → (a <> b) <> c ≡ a <> (b <> c)
<>_assoc [] b c = refl
<>_assoc (x ∷ a) b c = ap (◌∷◌ x) (<>_assoc a b c)

pub <>_nil : (a : String) → a <> [] ≡ a
<>_nil [] = refl
<>_nil (x ∷ a) = ap (◌∷◌ x) (<>_nil a)

pub size-append : (a b : String) → size (a <> b) ≡ size a + size b
size-append [] b = omega arith
size-append (c ∷ a) b = omega (arith, size-append a b)

pub strip_prefix-append : (p s : String) → strip_prefix p (p <> s) ≡ some s
unfolding strip_prefix
strip_prefix-append [] s = refl
strip_prefix-append (c ∷ p) s = ground (arith, strip_prefix-append p s)

starts-contains : (p s : String) → starts_with p s ≡ true → contains p s ≡ true
unfolding contains
starts-contains p [] h = h
starts-contains p (c ∷ s) h = ground arith

contains-cons :
    (p : String) (c : Char) (s : String) → contains p s ≡ true → contains p (c ∷ s) ≡ true
unfolding contains
contains-cons p c s h = ground arith

-- A text that is a part of another is found in it.
pub contains-append : (p a t : String) → contains p (a <> (p <> t)) ≡ true
contains-append p [] t = starts-contains p (p <> t) (rw strip_prefix-append)
contains-append p (c ∷ a) t = contains-cons p c _ (contains-append p a t)

-- A failed match stays failed when a text that is long enough grows.
strip_prefix-append-none :
    (p s u : String) → size p ≤ size s → strip_prefix p s ≡ none → strip_prefix p (s <> u) ≡ none
unfolding strip_prefix
strip_prefix-append-none [] s u h e = cc
strip_prefix-append-none (p ∷ ps) [] u h e = absurd (omega arith)
strip_prefix-append-none (p ∷ ps) (c ∷ s) u h e = ground (arith, strip_prefix-append-none ps s u)

pub split_once-strip :
    (sep s r : String) → strip_prefix sep s ≡ some r → split_once sep s ≡ some ("", r)
unfolding split_once
split_once-strip sep [] r h = rw (h, split_once)
split_once-strip sep (c ∷ s) r h = rw (h, split_once)

pub split_once-skip :
    (sep s : String) (c : Char)
    → strip_prefix sep (c ∷ s) ≡ none
    → split_once sep (c ∷ s) ≡ cons_first c (split_once sep s)
unfolding split_once
split_once-skip sep s c h = rw (h, split_once)

not_starts : (p s : String) (c : Char) → contains p (c ∷ s) ≡ false → strip_prefix p (c ∷ s) ≡ none
unfolding contains
not_starts p s c h = elim (Option-cases (strip_prefix p (c ∷ s))) [
  | inl e ↦ e
  | inr (r, e) ↦ ground arith
]

not_contains-tail : (p s : String) (c : Char) → contains p (c ∷ s) ≡ false → contains p s ≡ false
unfolding contains
not_contains-tail p s c h = ground arith

regroup_at :
    (i : String) (l : Char) (a t : String) → (a <> i) <> (l ∷ t) ≡ a <> ((i <> (l ∷ [])) <> t)
regroup_at i l a t = <>_assoc a i (l ∷ t) ∙ ap (◌<>◌ a) (sym (<>_assoc i (l ∷ []) t))

fits_at : (i : String) (l c : Char) (a : String) → size (i <> (l ∷ [])) ≤ size (c ∷ (a <> i))
fits_at i l c a = omega (arith, size-append i (l ∷ []), size-append a i)

-- The first part ends where the separator was put, if the separator less its last character makes no
-- earlier occurrence together with what stands before it.
pub split_once-append :
    (i : String) (l : Char) (a t : String)
    → contains (i <> (l ∷ [])) (a <> i) ≡ false
    → split_once (i <> (l ∷ [])) (a <> ((i <> (l ∷ [])) <> t)) ≡ some (a, t)
split_once-append i l [] t h = split_once-strip _ _ t (strip_prefix-append (i <> (l ∷ [])) t)
split_once-append i l (c ∷ a) t h =
    split_once-skip _ _ c (
      subst (λ s. strip_prefix (i <> (l ∷ [])) (c ∷ s) ≡ none) (regroup_at i l a t)
        (strip_prefix-append-none _ (c ∷ (a <> i)) (l ∷ t) (fits_at i l c a) (not_starts _ _ c h)))
    ∙ ap (cons_first c) (split_once-append i l a t (not_contains-tail _ _ c h))

pub strip_prefix_sound : (p s r : String) → strip_prefix p s ≡ some r → s ≡ p <> r
unfolding strip_prefix
strip_prefix_sound [] s r h = cc
strip_prefix_sound (p ∷ ps) [] r h = cc
strip_prefix_sound (p ∷ ps) (c ∷ s) r h =
    ap₂ ◌∷◌ (sym (Char-path p c (ground arith))) (strip_prefix_sound ps s r (ground arith))

split_once-found :
    (sep s a t r : String)
    → strip_prefix sep s ≡ some r
    → split_once sep s ≡ some (a, t)
    → s ≡ a <> (sep <> t)
split_once-found sep s a t r e h =
    let qa : ◌≡◌ {A = String} "" a = cc (split_once-strip sep s r e) in
    let qt : r ≡ t = cc (split_once-strip sep s r e) in
    rw (← qa, ← qt) (strip_prefix_sound sep s r e)

cons_first-some :
    (c : Char) (o : Option (String × String)) (a t : String)
    → cons_first c o ≡ some (a, t)
    → (b : String) × (a ≡ c ∷ b) × (o ≡ some (b, t))
cons_first-some c none a t h = cc
cons_first-some c (some (b, u)) a t h = (b, cc, cc)

-- What is split is put together again.
pub split_once_sound : (sep s a t : String) → split_once sep s ≡ some (a, t) → s ≡ a <> (sep <> t)
split_once_sound sep [] a t h = elim (Option-cases (strip_prefix sep [])) [
  | inl e ↦ unfold split_once in cc
  | inr (r, e) ↦ split_once-found sep [] a t r e h
]
split_once_sound sep (c ∷ s) a t h = elim (Option-cases (strip_prefix sep (c ∷ s))) [
  | inl e ↦
      let (b, p, q) = cons_first-some c _ a t (sym (split_once-skip sep s c e) ∙ h) in
      rw p (ap (◌∷◌ c) (split_once_sound sep s b t q))
  | inr (r, e) ↦ split_once-found sep (c ∷ s) a t r e h
]

-- A text with the separator in it is split.
pub split_once-none : (sep s : String) → contains sep s ≡ false → split_once sep s ≡ none
unfolding contains split_once
split_once-none sep [] h = ground arith
split_once-none sep (c ∷ s) h = ground (arith, split_once-none sep s)

-- `last_piece`: the fuel suffices, and a piece cut off in front does not matter.
rest-le : (p : Char) (ps s a t : String) → split_once (p ∷ ps) s ≡ some (a, t) → size t < size s
rest-le p ps s a t h =
    rw (split_once_sound (p ∷ ps) s a t h)
      (omega (arith, size-append a (p ∷ (ps <> t)), size-append ps t))

last_piece_fuel-enough :
    (m n : ℕ) (p : Char) (ps s : String)
    → size s ≤ m
    → size s ≤ n
    → last_piece_fuel m (p ∷ ps) s ≡ last_piece_fuel n (p ∷ ps) s
unfolding last_piece_fuel split_once strip_prefix
last_piece_fuel-enough zero zero p ps s h k = refl
last_piece_fuel-enough zero (suc n) p ps [] h k = refl
last_piece_fuel-enough (suc m) zero p ps [] h k = refl
last_piece_fuel-enough zero (suc n) p ps (c ∷ s) h k = absurd (omega arith)
last_piece_fuel-enough (suc m) zero p ps (c ∷ s) h k = absurd (omega arith)
last_piece_fuel-enough (suc m) (suc n) p ps s h k = elim (Option-cases (split_once (p ∷ ps) s)) [
  | inl e ↦ rw (e, last_piece_fuel)
  | inr ((a, t), e) ↦
      let short = rest-le p ps s a t e in
      rw (e, last_piece_fuel) (last_piece_fuel-enough m n p ps t (omega arith) (omega arith))
]

pub last_piece-split :
    (p : Char) (ps s a t : String)
    → split_once (p ∷ ps) s ≡ some (a, t)
    → last_piece (p ∷ ps) s ≡ last_piece (p ∷ ps) t
last_piece-split p ps [] a t h = absurd (omega (arith, rest-le p ps [] a t h))
last_piece-split p ps (c ∷ s) a t h =
    let short = rest-le p ps (c ∷ s) a t h in
    unfold last_piece last_piece_fuel in
    rw (h, last_piece_fuel)
      (last_piece_fuel-enough (size s) (size t) p ps t (omega arith) (omega arith))

pub last_piece-whole : (sep s : String) → contains sep s ≡ false → last_piece sep s ≡ s
unfolding last_piece
last_piece-whole sep [] h = refl
last_piece-whole sep (c ∷ s) h = rw (split_once-none sep (c ∷ s) h, last_piece_fuel)

-- `to_lowercase` works character by character.
pub to_lowercase-append : (a b : String) → to_lowercase (a <> b) ≡ to_lowercase a <> to_lowercase b
unfolding to_lowercase
to_lowercase-append [] b = refl
to_lowercase-append (c ∷ a) b =
    ap (◌<>◌ (lower_char c)) (to_lowercase-append a b)
    ∙ sym (<>_assoc (lower_char c) (to_lowercase a) (to_lowercase b))

-- `contains` finds the parts of a text, and nothing else.
contains_sound : (p s : String) → contains p s ≡ true → Occurs p s
unfolding contains
contains_sound p [] h = elim (Option-cases (strip_prefix p [])) [
  | inl e ↦ ground arith
  | inr (r, e) ↦ ([], r, strip_prefix_sound p [] r e)
]
contains_sound p (c ∷ s) h = elim (Option-cases (strip_prefix p (c ∷ s))) [
  | inl e ↦ let (a, b, q) = contains_sound p s (ground arith) in (c ∷ a, b, ap (◌∷◌ c) q)
  | inr (r, e) ↦ ([], r, strip_prefix_sound p (c ∷ s) r e)
]

pub contains_iff : (p s : String) → (contains p s ≡ true) ↔ Occurs p s
contains_iff p s = (contains_sound p s, λ (a, b, q). rw q (contains-append p a b))
