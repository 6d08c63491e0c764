-- ===== src/Permissions.antt =====
-- crates/agent-core/src/permissions.rs: the policies and the chain that asks them in order.
pub mod Chain
pub mod Verdict
pub mod Names
mod Tests
use edgeclaw.Prelude.{
  String, ◌≡◌, Option, none, some, Bool, true, false, ◌||◌, List, [], ◌∷◌, any, find, str_eq,
  if◌then◌else◌, unwrap_or,
}
use edgeclaw.Prelude.Text.{◌<>◌, contains, last_piece, to_lowercase}
use edgeclaw.Json.{get_str}
use edgeclaw.Types.{ToolCall, PermissionCheck, allow, deny, requires_approval}

-- A `PermissionPolicy`, by its `check`.
abbrev pub Policy : Type 0
Policy = ToolCall → Option PermissionCheck

-- `PolicyChain::check`.
unfoldable pub check : List Policy → ToolCall → PermissionCheck
check [] tc = requires_approval "No policy matched"
check (policy ∷ policies) tc = unwrap_or (policy tc) (check policies tc)

-- `DenyListPolicy::default().patterns`.
abbrev pub deny_patterns : List String
deny_patterns = "rm -rf /" ∷ "mkfs" ∷ "dd if=" ∷ ":(){:|:&};:" ∷ []

-- The "command" field of the input, in lower case.
abbrev pub command : ToolCall → String
command tc = to_lowercase (unwrap_or (get_str tc.input "command") "")

unfoldable pub deny_reason : String → String
deny_reason pattern = "Command matches deny-listed pattern: " <> pattern

-- `DenyListPolicy::check`: the loop returns at the first pattern that the command contains.
unfoldable pub deny_list : List String → Policy
deny_list patterns tc = elim (find (λ p. contains p (command tc)) patterns) [
  | none ↦ none
  | some pattern ↦ some (deny (deny_reason pattern))
]

-- `AllowListPolicy::default().tool_names`.
abbrev pub allowed_names : List String
allowed_names = "file_read" ∷ "glob" ∷ "grep" ∷ "memory_fetch" ∷ "memory_list" ∷ []

-- `HashSet::contains`.
abbrev pub member : String → List String → Bool
member name = any (λ n. str_eq n name)

-- `AllowListPolicy::check`. `split` yields one piece at least, so `unwrap_or` never gives its default.
unfoldable pub allow_list : List String → Policy
allow_list tool_names tc =
    if member (last_piece "__" tc.name) tool_names || member tc.name tool_names
    then some allow
    else none

abbrev pub destructive_patterns : List String
destructive_patterns = "delete" ∷ "remove" ∷ "send" ∷ "drop" ∷ []

abbrev pub destructive_explicit : List String
destructive_explicit =
    "create_pull_request" ∷ "merge_pull_request" ∷ "issue_write" ∷ "manage_event"
    ∷ "create_or_update_file" ∷ "push_files" ∷ []

-- The test of `DestructivePatternPolicy::check`, which skill_registry's `is_destructive` makes too.
unfoldable pub is_destructive : String → Bool
is_destructive name =
    let lower = to_lowercase name in
    any (λ p. contains p lower) destructive_patterns
    || any (λ n. contains n lower) destructive_explicit

unfoldable pub destructive_reason : ToolCall → String
destructive_reason tc = "Tool '" <> tc.name <> "' matches destructive pattern"

-- `DestructivePatternPolicy::check`.
unfoldable pub destructive_pattern : Policy
destructive_pattern tc =
    if is_destructive tc.name then some (requires_approval (destructive_reason tc)) else none

unfoldable pub default_reason : ToolCall → String
default_reason tc = "Tool '" <> tc.name <> "' has no explicit permission — requires approval"

-- `DefaultRequiresApprovalPolicy::check`.
unfoldable pub default_requires_approval : Policy
default_requires_approval tc = some (requires_approval (default_reason tc))

-- `PolicyChain::default_chain`.
abbrev pub default_chain : List Policy
default_chain =
    deny_list deny_patterns
    ∷ allow_list allowed_names
    ∷ destructive_pattern
    ∷ default_requires_approval
    ∷ []
