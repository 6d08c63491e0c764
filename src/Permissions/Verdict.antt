-- ===== src/Permissions/Verdict.antt =====
-- What the default chain decides.
use mathlib.Core.Bool.{false≢true}
use edgeclaw.Prelude.{
  sym, eq_iff, String, ◌≡◌, ◌↔◌, ◌⊎◌, inl, inr, ◌∙◌, none, some, Bool, true, List, [], ◌∷◌, any,
  Any, Any-map, Any-any, any-Any, find-any, find-none, arith, Bool-cases,
}
use edgeclaw.Prelude.Text.{Occurs, contains, last_piece}
use edgeclaw.Prelude.Text.Laws.{contains_iff}
use edgeclaw.Types.{ToolCall, allow, deny, requires_approval}
use edgeclaw.Permissions.{
  check, deny_patterns, command, deny_list, allow_list, allowed_names, member, destructive_pattern,
  is_destructive, destructive_reason, default_reason, default_requires_approval, default_chain,
  deny_reason,
}

-- The command, in lower case, has one of the deny-listed patterns in it.
abbrev Denied : List String → ToolCall → Type 0
Denied ps tc = Any (λ p. Occurs p (command tc)) ps

abbrev pub IsDenied : ToolCall → Type 0
IsDenied tc = Denied deny_patterns tc

abbrev denies : ToolCall → String → Bool
denies tc p = contains p (command tc)

-- The tool's name, or its part behind the last "__", is on the allow list.
abbrev Allowed : List String → ToolCall → Type 0
Allowed ns tc = Any (λ n. n ≡ last_piece "__" tc.name) ns ⊎ Any (λ n. n ≡ tc.name) ns

abbrev pub IsAllowed : ToolCall → Type 0
IsAllowed tc = Allowed allowed_names tc

Denied-iff : (ps : List String) (tc : ToolCall) → (any (denies tc) ps ≡ true) ↔ Denied ps tc
Denied-iff ps tc = (
  λ h. Any-map (λ p. (contains_iff p (command tc)).0) ps (any-Any (denies tc) ps h),
  λ h. Any-any (denies tc) ps (Any-map (λ p. (contains_iff p (command tc)).1) ps h),
)

-- `DenyListPolicy` speaks up, with one of the patterns that occur, or is silent.
deny_list-Denied :
    (ps : List String) (tc : ToolCall)
    → Denied ps tc
    → (p : String) × (deny_list ps tc ≡ some (deny (deny_reason p))) × Occurs p (command tc)
unfolding deny_list
deny_list-Denied ps tc h =
    let (p, f, t) = find-any (denies tc) ps ((Denied-iff ps tc).1 h) in
    (p, rw (f, deny_list), (contains_iff p (command tc)).0 t)

deny_list-clean : (ps : List String) (tc : ToolCall) → ¬ Denied ps tc → deny_list ps tc ≡ none
unfolding deny_list
deny_list-clean ps tc h = elim (Bool-cases (any (denies tc) ps)) [
  | inl e ↦ absurd (h ((Denied-iff ps tc).0 e))
  | inr e ↦ rw (find-none (denies tc) ps e, deny_list)
]

deny_list-cases : (ps : List String) (tc : ToolCall) → Denied ps tc ⊎ (¬ Denied ps tc)
deny_list-cases ps tc = elim (Bool-cases (any (denies tc) ps)) [
  | inl e ↦ inl ((Denied-iff ps tc).0 e)
  | inr e ↦ inr (λ h. false≢true (sym e ∙ (Denied-iff ps tc).1 h))
]

member_iff : (name : String) (ns : List String) → (member name ns ≡ true) ↔ Any (λ n. n ≡ name) ns
member_iff name ns = (
  λ h. Any-map (λ n. (eq_iff n name).0) ns (any-Any _ ns h),
  λ h. Any-any _ ns (Any-map (λ n. (eq_iff n name).1) ns h),
)

-- `AllowListPolicy` permits what is on the list, by its whole name or its last part, and is
-- silent on anything else.
allow_list-Allowed :
    (ns : List String) (tc : ToolCall) → Allowed ns tc → allow_list ns tc ≡ some allow
unfolding allow_list
allow_list-Allowed ns tc (inl h) = rw ((member_iff _ ns).1 h, allow_list)
allow_list-Allowed ns tc (inr h) = ground (arith, (member_iff tc.name ns).1 h)

allow_list-cases :
    (ns : List String) (tc : ToolCall)
    → Allowed ns tc ⊎ ((¬ Allowed ns tc) × (allow_list ns tc ≡ none))
unfolding allow_list
allow_list-cases ns tc = elim (Bool-cases (member (last_piece "__" tc.name) ns)) [
  | inl e ↦ inl (inl ((member_iff _ ns).0 e))
  | inr e ↦ elim (Bool-cases (member tc.name ns)) [
    | inl f ↦ inl (inr ((member_iff _ ns).0 f))
    | inr f ↦ inr (
      λ h. elim h [
        | inl a ↦ false≢true (sym e ∙ (member_iff _ ns).1 a)
        | inr a ↦ false≢true (sym f ∙ (member_iff _ ns).1 a)
      ],
      ground arith,
    )
  ]
]

-- A call that no layer denies or allows asks for approval.
rest_asks :
    (tc : ToolCall)
    → (reason : String) × (check (destructive_pattern ∷ default_requires_approval ∷ []) tc
        ≡ requires_approval reason)
unfolding check destructive_pattern default_requires_approval
rest_asks tc = elim (Bool-cases (is_destructive tc.name)) [
  | inl e ↦ (destructive_reason tc, rw (e, check))
  | inr e ↦ (default_reason tc, rw (e, check))
]

-- The three cases.
abbrev Denies : ToolCall → Type 0
Denies tc = (p : String) × (check default_chain tc ≡ deny (deny_reason p)) × Occurs p (command tc)

abbrev Asks : ToolCall → Type 0
Asks tc = (reason : String) × (check default_chain tc ≡ requires_approval reason)

denied_case : (tc : ToolCall) → IsDenied tc → Denies tc
unfolding check
denied_case tc h = let (p, e, o) = deny_list-Denied deny_patterns tc h in (p, rw (e, check), o)

allowed_case : (tc : ToolCall) → ¬ IsDenied tc → IsAllowed tc → check default_chain tc ≡ allow
unfolding check
allowed_case tc h a =
    rw (deny_list-clean deny_patterns tc h, check)
      (rw (allow_list-Allowed allowed_names tc a, check))

Asks-case : (tc : ToolCall) → ¬ IsDenied tc → allow_list allowed_names tc ≡ none → Asks tc
unfolding check
Asks-case tc h a =
    let (r, e) = rest_asks tc in
    (r, rw (deny_list-clean deny_patterns tc h, check) (rw (a, check) e))

classify :
    (tc : ToolCall)
    → (IsDenied tc × Denies tc)
      ⊎ ((¬ IsDenied tc) × IsAllowed tc × (check default_chain tc ≡ allow))
      ⊎ ((¬ IsDenied tc) × (¬ IsAllowed tc) × Asks tc)
classify tc = elim (deny_list-cases deny_patterns tc) [
  | inl d ↦ inl (d, denied_case tc d)
  | inr d ↦ elim (allow_list-cases allowed_names tc) [
    | inl a ↦ inr (inl (d, a, allowed_case tc d a))
    | inr (a, e) ↦ inr (inr (d, a, Asks-case tc d e))
  ]
]

pub check-deny_iff :
    (tc : ToolCall)
    → IsDenied tc
      ↔ ((p : String) × (check default_chain tc ≡ deny (deny_reason p)) × Occurs p (command tc))
check-deny_iff tc = (
  denied_case tc,
  λ (p, e, o). elim (classify tc) [
    | inl (d, x) ↦ d
    | inr (inl (d, a, f)) ↦ cc
    | inr (inr (d, a, (r, f))) ↦ cc
  ],
)

-- It allows a call exactly if it does not deny it, and the allow list has the tool's name or its
-- part behind the last "__".
pub check-allow_iff :
    (tc : ToolCall) → (check default_chain tc ≡ allow) ↔ ((¬ IsDenied tc) × IsAllowed tc)
check-allow_iff tc = (
  λ e. elim (classify tc) [
    | inl (d, (p, f, o)) ↦ absurd (cc)
    | inr (inl (d, a, f)) ↦ (d, a)
    | inr (inr (d, a, (r, f))) ↦ absurd (cc)
  ],
  λ (d, a). allowed_case tc d a,
)

-- It asks for approval in all other cases, and only in those.
pub check-asks_iff :
    (tc : ToolCall)
    → ((reason : String) × (check default_chain tc ≡ requires_approval reason))
      ↔ ((¬ IsDenied tc) × (¬ IsAllowed tc))
check-asks_iff tc = (
  λ (reason, e). elim (classify tc) [
    | inl (d, (p, f, o)) ↦ absurd (cc)
    | inr (inl (d, a, f)) ↦ absurd (cc)
    | inr (inr (d, a, x)) ↦ (d, a)
  ],
  λ (d, a). elim (classify tc) [
    | inl (d', x) ↦ absurd (d d')
    | inr (inl (d', a', f)) ↦ absurd (a a')
    | inr (inr (d', a', x)) ↦ x
  ],
)
