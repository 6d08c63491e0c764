-- ===== src/Prelude/Lists.antt =====
-- Lists measured by native numbers, and the list operations that the program uses.
use Prim.Native.Nat.{ℕ, zero, suc, ◌+◌, ◌≤◌}
use mathlib.Core.Path.{◌≡◌, refl, ap}
use mathlib.Core.Logic.{◌⊎◌, inl, inr}
use mathlib.Core.Bool.{Bool, true, false, not, ◌||◌}
use mathlib.Core.List.{List, [], ◌∷◌, ◌++◌}
use mathlib.Core.Option.{Option, none, some}
use native.Mathlib.Omega.{arith}
use edgeclaw.Prelude.Tests.{if◌then◌else◌, Bool-cases}

module _ {ℓ} {A : Type ℓ} where
  abbrev pub length : List A → ℕ
  length [] = 0
  length (x ∷ xs) = suc (length xs)

  pub length-append : (xs ys : List A) → length (xs ++ ys) ≡ length xs + length ys
  length-append [] ys = omega arith
  length-append (x ∷ xs) ys = omega (arith, length-append xs ys)

  -- `iter().any(p)`.
  abbrev pub any : (A → Bool) → List A → Bool
  any p [] = false
  any p (x ∷ xs) = p x || any p xs

  -- `iter().find(p)`.
  abbrev pub find : (A → Bool) → List A → Option A
  find p [] = none
  find p (x ∷ xs) = if p x then some x else find p xs

  -- `retain(p)`.
  abbrev pub retain : (A → Bool) → List A → List A
  retain p [] = []
  retain p (x ∷ xs) = if p x then x ∷ retain p xs else retain p xs

  abbrev pub is_empty : List A → Bool
  is_empty [] = true
  is_empty (x ∷ xs) = false

  abbrev pub take : ℕ → List A → List A
  take zero xs = []
  take (suc n) [] = []
  take (suc n) (x ∷ xs) = x ∷ take n xs

  abbrev pub drop : ℕ → List A → List A
  drop zero xs = xs
  drop (suc n) [] = []
  drop (suc n) (x ∷ xs) = drop n xs

  pub length-take-le : (n : ℕ) (xs : List A) → length (take n xs) ≤ n
  length-take-le zero xs = omega arith
  length-take-le (suc n) [] = omega arith
  length-take-le (suc n) (x ∷ xs) = omega (arith, length-take-le n xs)

  abbrev pub All {κ} : (A → Type κ) → List A → Type κ
  All P [] = Unit
  All P (x ∷ xs) = P x × All P xs

  pub All-weaken : (P Q : A → Type 0) (xs : List A) → ((x : A) → P x → Q x) → All P xs → All Q xs
  All-weaken P Q [] f h = h
  All-weaken P Q (x ∷ xs) f h = (f x h.0, All-weaken P Q xs f h.1)

  pub All-append {κ} : (P : A → Type κ) (xs ys : List A) → All P xs → All P ys → All P (xs ++ ys)
  All-append P [] ys hx hy = hy
  All-append P (x ∷ xs) ys hx hy = (hx.0, All-append P xs ys hx.1 hy)

  -- Some entry has the property.
  abbrev pub Any : (A → Type 0) → List A → Type 0
  Any P [] = ⊥
  Any P (x ∷ xs) = P x ⊎ Any P xs

module _ {ℓ κ} {A : Type ℓ} {B : Type κ} where
  -- `iter().filter_map(f)`.
  abbrev pub filter_map : (A → Option B) → List A → List B
  filter_map f [] = []
  filter_map f (x ∷ xs) = elim (f x) [ none ↦ filter_map f xs | some y ↦ y ∷ filter_map f xs ]

  -- `iter().find_map(f)`.
  abbrev pub find_map : (A → Option B) → List A → Option B
  find_map f [] = none
  find_map f (x ∷ xs) = elim (f x) [ none ↦ find_map f xs | some y ↦ some y ]

module _ {ℓ} {A : Type ℓ} (p : A → Bool) where
  pub any-Any : (xs : List A) → any p xs ≡ true → Any (λ x. p x ≡ true) xs
  any-Any [] h = cc
  any-Any (x ∷ xs) h = elim (Bool-cases (p x)) [
    | inl e ↦ inl e
    | inr e ↦ inr (any-Any xs (ground arith))
  ]

  pub Any-any : (xs : List A) → Any (λ x. p x ≡ true) xs → any p xs ≡ true
  Any-any [] h = absurd h
  Any-any (x ∷ xs) (inl e) = rw e
  Any-any (x ∷ xs) (inr h) = ground (arith, Any-any xs h)

  -- A search finds what passes the test, if anything does.
  pub find-any : (xs : List A) → any p xs ≡ true → (x : A) × (find p xs ≡ some x) × (p x ≡ true)
  find-any [] h = cc
  find-any (x ∷ xs) h = elim (Bool-cases (p x)) [
    | inl e ↦ (x, rw e, e)
    | inr e ↦ let (y, f, t) = find-any xs (ground arith) in (y, rw e f, t)
  ]

  pub find-none : (xs : List A) → any p xs ≡ false → find p xs ≡ none
  find-none [] h = refl
  find-none (x ∷ xs) h = ground (arith, find-none xs)

module _ {ℓ} {A : Type ℓ} {P Q : A → Type 0} where
  pub Any-map : ((x : A) → P x → Q x) → (xs : List A) → Any P xs → Any Q xs
  Any-map f [] h = h
  Any-map f (x ∷ xs) (inl h) = inl (f x h)
  Any-map f (x ∷ xs) (inr h) = inr (Any-map f xs h)

module _ {ℓ} {A : Type ℓ} where
  pub append_assoc : (a b c : List A) → (a ++ b) ++ c ≡ a ++ (b ++ c)
  append_assoc [] b c = refl
  append_assoc (x ∷ a) b c = ap (◌∷◌ x) (append_assoc a b c)

  pub append_nil : (a : List A) → a ++ [] ≡ a
  append_nil [] = refl
  append_nil (x ∷ a) = ap (◌∷◌ x) (append_nil a)

  pub retain-append :
      (p : A → Bool) (xs ys : List A) → retain p (xs ++ ys) ≡ retain p xs ++ retain p ys
  retain-append p [] ys = refl
  retain-append p (x ∷ xs) ys = ground (arith, retain-append p xs ys)

  -- What is kept of a list without certain entries.
  pub retain-retain-not : (p : A → Bool) (xs : List A) → retain p (retain (λ x. not (p x)) xs) ≡ []
  retain-retain-not p [] = refl
  retain-retain-not p (x ∷ xs) = ground (arith, retain-retain-not p xs)

  pub retain-retain_others :
      (p q : A → Bool) (xs : List A)
      → ((x : A) → q x ≡ true → p x ≡ false)
      → retain p (retain (λ x. not (q x)) xs) ≡ retain p xs
  retain-retain_others p q [] h = refl
  retain-retain_others p q (x ∷ xs) h = ground (arith, h x, retain-retain_others p q xs h)

module _ {ℓ κ} {A : Type ℓ} {B : Type κ} where
  pub filter_map-append :
      (f : A → Option B) (xs ys : List A)
      → filter_map f (xs ++ ys) ≡ filter_map f xs ++ filter_map f ys
  filter_map-append f [] ys = refl
  filter_map-append f (x ∷ xs) ys = ground (arith, filter_map-append f xs ys)
