-- ===== src/Handlers/Html/Laws.antt =====
-- An escaped text shows the text, and has no markup in it.
use Prim.Native.Char.{Char, code}
use Prim.Native.String.{String, [], ◌∷◌}
use edgeclaw.Prelude.{
  ℕ, zero, suc, ◌==◌, if◌then◌else◌, ◌≡◌, refl, sym, ap, ◌∙◌, Bool, true, false, Bool-cases, ◌||◌,
  inl, inr, arith, Option, none, some,
}
use text.Mathlib.TextEquality.{Char-path}
use edgeclaw.Prelude.Text.{◌<>◌, strip_prefix, size}
use edgeclaw.Prelude.Text.Laws.{<>_assoc}
use edgeclaw.Handlers.Html.{replace_char, html_escape}

-- The entity of a character, or the character.
unfoldable pub entity : Char → String
entity x =
    if code x == b'&'
    then "&amp;"
    else if code x == b'<'
    then "&lt;"
    else if code x == b'>'
    then "&gt;"
    else if code x == b'"'
    then "&quot;"
    else if code x == b'\''
    then "&#x27;"
    else x ∷ []

replace_char-append :
    (c : ℕ) (to a b : String)
    → replace_char c to (a <> b) ≡ replace_char c to a <> replace_char c to b
unfolding replace_char
replace_char-append c to [] b = refl
replace_char-append c to (x ∷ a) b = elim (Bool-cases (code x == c)) [
  | inl e ↦
      rw (e, replace_char-append c to a b)
        (sym (<>_assoc to (replace_char c to a) (replace_char c to b)))
  | inr e ↦ rw (e, replace_char-append c to a b) refl
]

html_escape-append : (a b : String) → html_escape (a <> b) ≡ html_escape a <> html_escape b
unfolding html_escape
html_escape-append a b =
    ap (λ t. tick (quot (gt (lt t)))) (replace_char-append b'&' "&amp;" a b)
    ∙ ap (λ t. tick (quot (gt t))) (replace_char-append b'<' "&lt;" (amp a) (amp b))
    ∙ ap (λ t. tick (quot t)) (replace_char-append b'>' "&gt;" (lt (amp a)) (lt (amp b)))
    ∙ ap tick (replace_char-append b'"' "&quot;" (gt (lt (amp a))) (gt (lt (amp b))))
    ∙ replace_char-append b'\'' "&#x27;" (quot (gt (lt (amp a)))) (quot (gt (lt (amp b))))
  where
    amp : String → String
    amp s = replace_char b'&' "&amp;" s

    lt : String → String
    lt s = replace_char b'<' "&lt;" s

    gt : String → String
    gt s = replace_char b'>' "&gt;" s

    quot : String → String
    quot s = replace_char b'"' "&quot;" s

    tick : String → String
    tick s = replace_char b'\'' "&#x27;" s

html_escape-char : (x : Char) → html_escape (x ∷ []) ≡ entity x
unfolding html_escape entity replace_char
html_escape-char x = elim (Bool-cases (code x == b'&')) [
  | inl e ↦ rw e refl
  | inr e ↦ elim (Bool-cases (code x == b'<')) [
    | inl f ↦ rw (e, f) refl
    | inr f ↦ elim (Bool-cases (code x == b'>')) [
      | inl g ↦ rw (e, f, g) refl
      | inr g ↦ elim (Bool-cases (code x == b'"')) [
        | inl h ↦ rw (e, f, g, h) refl
        | inr h ↦ elim (Bool-cases (code x == b'\'')) [
          | inl i ↦ rw (e, f, g, h, i) refl
          | inr i ↦ rw (e, f, g, h, i) refl
        ]
      ]
    ]
  ]
]

html_escape-cons : (x : Char) (s : String) → html_escape (x ∷ s) ≡ entity x <> html_escape s
html_escape-cons x s =
    html_escape-append (x ∷ []) s ∙ ap (λ t. t <> html_escape s) (html_escape-char x)

-- The characters that are markup in a text or in an attribute.
unfoldable pub is_markup : Char → Bool
is_markup x =
    code x == b'&' || code x == b'<' || code x == b'>' || code x == b'"' || code x == b'\''

unfoldable pub plain : String → Option (String × String)
unfolding is_markup
plain [] = none
plain (x ∷ h) = if is_markup x then none else some (x ∷ [], h)

-- How a browser reads on: an entity, or a character that is no markup, and what stands behind it.
unfoldable pub entity_at : String → Option (String × String)
unfolding plain
entity_at h = elim (strip_prefix "&amp;" h) [
  | some r ↦ some ("&", r)
  | none ↦ elim (strip_prefix "&lt;" h) [
    | some r ↦ some ("<", r)
    | none ↦ elim (strip_prefix "&gt;" h) [
      | some r ↦ some (">", r)
      | none ↦ elim (strip_prefix "&quot;" h) [
        | some r ↦ some ("\"", r)
        | none ↦ elim (strip_prefix "&#x27;" h) [ some r ↦ some ("'", r) | none ↦ plain h ]
      ]
    ]
  ]
]

abbrev pub put_before : String → Option String → Option String
put_before c none = none
put_before c (some t) = some (c <> t)

-- What a browser shows of a text of at most so many characters; `none` where markup would begin.
unfoldable pub displayed : ℕ → String → Option String
unfolding entity_at
displayed n [] = some []
displayed zero (x ∷ h) = none
displayed (suc n) (x ∷ h) = elim (entity_at (x ∷ h)) [
  | none ↦ none
  | some (c, rest) ↦ put_before c (displayed n rest)
]

single : (x y : Char) → (code x == code y) ≡ true → ◌≡◌ {A = String} (y ∷ []) (x ∷ [])
single x y h = ap (λ c. c ∷ []) (Char-path y x (ground arith))

plain_at : (x : Char) (h : String) → is_markup x ≡ false → entity_at (x ∷ h) ≡ some (x ∷ [], h)
unfolding entity_at plain is_markup strip_prefix
plain_at x h e = ground arith

entity_at-entity : (x : Char) (h : String) → entity_at (entity x <> h) ≡ some (x ∷ [], h)
unfolding entity_at entity strip_prefix
entity_at-entity x h = elim (Bool-cases (code x == b'&')) [
  | inl e ↦ rw e (ap (λ c. some (c, h)) (single x _ e))
  | inr e ↦ elim (Bool-cases (code x == b'<')) [
    | inl f ↦ rw (e, f) (ap (λ c. some (c, h)) (single x _ f))
    | inr f ↦ elim (Bool-cases (code x == b'>')) [
      | inl g ↦ rw (e, f, g) (ap (λ c. some (c, h)) (single x _ g))
      | inr g ↦ elim (Bool-cases (code x == b'"')) [
        | inl k ↦ rw (e, f, g, k) (ap (λ c. some (c, h)) (single x _ k))
        | inr k ↦ elim (Bool-cases (code x == b'\'')) [
          | inl i ↦ rw (e, f, g, k, i) (ap (λ c. some (c, h)) (single x _ i))
          | inr i ↦ rw (e, f, g, k, i) (plain_at x h (unfold is_markup in rw (e, f, g, k, i) refl))
        ]
      ]
    ]
  ]
]

displayed_step :
    (n : ℕ) (k c r : String)
    → entity_at k ≡ some (c, r)
    → displayed (suc n) k ≡ put_before c (displayed n r)
unfolding displayed
displayed_step n [] c r e = unfold entity_at plain strip_prefix in cc
displayed_step n (x ∷ k) c r e =
    ap (λ o. elim o [ none ↦ none | some (d, rest) ↦ put_before d (displayed n rest) ]) e

-- A browser shows of an escaped text exactly the text, and meets no markup in it.
pub displayed-html_escape : (s : String) → displayed (size s) (html_escape s) ≡ some s
displayed-html_escape [] = unfold displayed html_escape replace_char in refl
displayed-html_escape (x ∷ s) =
    ap (displayed (suc (size s))) (html_escape-cons x s)
    ∙ displayed_step (size s) (entity x <> html_escape s) (x ∷ []) (html_escape s)
        (entity_at-entity x (html_escape s))
    ∙ ap (put_before (x ∷ [])) (displayed-html_escape s)
