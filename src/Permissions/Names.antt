-- ===== src/Permissions/Names.antt =====
-- What the chain makes of a command in any case, and of the names that MCP skills give their tools.
use edgeclaw.Prelude.{String, ◌≡◌, refl, ap, subst, sym, ◌∙◌, inl, inr, some, false, Any, Any-map}
use edgeclaw.Prelude.Text.{◌<>◌, Occurs, contains, to_lowercase, last_piece, strip_prefix}
use edgeclaw.Prelude.Text.Laws.{
  to_lowercase-append, split_once-append, last_piece-split, last_piece-whole,
}
use edgeclaw.Json.{get_str}
use edgeclaw.Types.{ToolCall, allow, deny}
use edgeclaw.Permissions.{check, command, deny_patterns, deny_reason, default_chain, allowed_names}
use edgeclaw.Permissions.Verdict.{IsDenied, check-deny_iff, check-allow_iff}

Occurs-lower : (a q b : String) → Occurs (to_lowercase q) (to_lowercase (a <> (q <> b)))
Occurs-lower a q b = (
  to_lowercase a,
  to_lowercase b,
  to_lowercase-append a (q <> b) ∙ ap (◌<>◌ (to_lowercase a)) (to_lowercase-append q b),
)

-- A call is denied if its command has, anywhere and in any mix of cases, a text whose lower case is
-- a deny-listed pattern, whatever tool it names.
pub check-deny_ignoring_case :
    (tc : ToolCall) (a q b : String)
    → get_str tc.input "command" ≡ some (a <> (q <> b))
    → Any (λ p. to_lowercase q ≡ p) deny_patterns
    → (reason : String) × (check default_chain tc ≡ deny reason)
check-deny_ignoring_case tc a q b h m =
    let occurs : Occurs (to_lowercase q) (command tc) = rw h (Occurs-lower a q b) in
    let (p, e, o) = (check-deny_iff tc).0 (
      Any-map {P = λ p. to_lowercase q ≡ p} {Q = λ p. Occurs p (command tc)}
        (λ p f. subst (λ r. Occurs r (command tc)) f occurs) deny_patterns m) in
    (deny_reason p, e)

allowed_plain : (n : String) → Any (λ m. m ≡ n) allowed_names → contains "__" n ≡ false
unfolding contains strip_prefix
allowed_plain n h = elim h [
  | inl e ↦ subst (λ s. contains "__" s ≡ false) e refl
  | inr (inl e) ↦ subst (λ s. contains "__" s ≡ false) e refl
  | inr (inr (inl e)) ↦ subst (λ s. contains "__" s ≡ false) e refl
  | inr (inr (inr (inl e))) ↦ subst (λ s. contains "__" s ≡ false) e refl
  | inr (inr (inr (inr (inl e)))) ↦ subst (λ s. contains "__" s ≡ false) e refl
  | inr (inr (inr (inr (inr e)))) ↦ absurd e
]

last_piece-namespaced :
    (skill n : String)
    → contains "__" (skill <> "_") ≡ false
    → contains "__" n ≡ false
    → last_piece "__" (skill <> ("__" <> n)) ≡ n
last_piece-namespaced skill n h k =
    last_piece-split "_" "_" _ skill n (split_once-append "_" "_" skill n h)
    ∙ last_piece-whole "__" n k

-- A tool of any skill is allowed without approval if the skill calls it by a name of the allow
-- list, also where the skill's name has a destructive word in it; only the deny list stands before.
-- The skill's name must not run into the separator.
pub check-allow_namespaced :
    (tc : ToolCall) (skill n : String)
    → tc.name ≡ skill <> ("__" <> n)
    → contains "__" (skill <> "_") ≡ false
    → Any (λ m. m ≡ n) allowed_names
    → ¬ IsDenied tc
    → check default_chain tc ≡ allow
check-allow_namespaced tc skill n e plain listed clean =
    let last : last_piece "__" tc.name ≡ n =
      ap (last_piece "__") e ∙ last_piece-namespaced skill n plain (allowed_plain n listed) in
    (check-allow_iff tc).1 (
      clean,
      inl (
          Any-map {P = λ m. m ≡ n} {Q = λ m. m ≡ last_piece "__" tc.name} (λ m f. f ∙ sym last)
            allowed_names listed),
    )
