-- ===== src/Permissions/Chain.antt =====
-- `PolicyChain::check` over any policies: the first that has an opinion decides.
use edgeclaw.Prelude.{◌≡◌, refl, none, some, List, [], ◌∷◌, ◌++◌, All}
use edgeclaw.Types.{ToolCall, PermissionCheck, requires_approval}
use edgeclaw.Permissions.{Policy, check}

-- A policy decides, whatever stands behind it, if it has an opinion and none before it has one.
pub check-first :
    (before after : List Policy) (policy : Policy) (tc : ToolCall) (verdict : PermissionCheck)
    → All (λ (p : Policy). p tc ≡ none) before
    → policy tc ≡ some verdict
    → check (before ++ policy ∷ after) tc ≡ verdict
unfolding check
check-first [] after policy tc verdict silent says = rw says
check-first (p ∷ before) after policy tc verdict silent says =
    rw silent.0 (check-first before after policy tc verdict silent.1 says)

-- A chain in which no policy has an opinion asks for approval.
pub check-silent :
    (policies : List Policy) (tc : ToolCall)
    → All (λ (p : Policy). p tc ≡ none) policies
    → check policies tc ≡ requires_approval "No policy matched"
unfolding check
check-silent [] tc silent = refl
check-silent (p ∷ policies) tc silent = rw silent.0 (check-silent policies tc silent.1)
