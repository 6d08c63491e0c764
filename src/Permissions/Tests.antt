-- ===== src/Permissions/Tests.antt =====
-- Runs of the chain, and its theorems at concrete calls.
use edgeclaw.Prelude.{String, ◌≡◌, ◌↔◌, refl, inl, inr, [], ◌∷◌}
use edgeclaw.Prelude.Text.{contains, to_lowercase, strip_prefix, last_piece, split_once}
use edgeclaw.Json.{object, string, field, end}
use edgeclaw.Types.{ToolCall, allow, deny, requires_approval}
use edgeclaw.Permissions.{
  check, deny_list, allow_list, destructive_pattern, default_requires_approval, is_destructive,
  default_chain, deny_patterns, deny_reason, default_reason, command,
}
use edgeclaw.Permissions.Chain.{check-first}
use edgeclaw.Permissions.Verdict.{
  IsDenied, IsAllowed, check-deny_iff, check-allow_iff, check-asks_iff,
}
use edgeclaw.Permissions.Names.{check-deny_ignoring_case, check-allow_namespaced}

abbrev call : String → String → ToolCall
call name command = record {
  id = "test_id";
  name = name;
  input = object (field "command" (string command) end);
}

abbrev plain : String → ToolCall
plain name = record { id = "test_id"; name = name; input = object end }

denied : check default_chain (call "file_read" "sudo RM -rf /") ≡ deny (deny_reason "rm -rf /")
unfolding check deny_list contains strip_prefix to_lowercase
denied = refl

allowed : check default_chain (plain "github__file_read") ≡ allow
unfolding check deny_list contains strip_prefix to_lowercase allow_list last_piece split_once
allowed = refl

asks : check default_chain (plain "unknown") ≡ requires_approval (default_reason (plain "unknown"))
unfolding check deny_list contains strip_prefix to_lowercase allow_list last_piece split_once
    destructive_pattern is_destructive default_requires_approval
asks = refl

check-first_test :
    check (deny_list deny_patterns ∷ default_requires_approval ∷ []) (plain "x")
    ≡ requires_approval (default_reason (plain "x"))
unfolding deny_list contains strip_prefix to_lowercase default_requires_approval
check-first_test =
    check-first (deny_list deny_patterns ∷ []) [] default_requires_approval (plain "x") _ (refl, tt)
      refl

check-deny_ignoring_case_test :
    (reason : String) × (check default_chain (call "anything" "x Mkfs /dev") ≡ deny reason)
unfolding to_lowercase
check-deny_ignoring_case_test =
    check-deny_ignoring_case (call "anything" "x Mkfs /dev") "x " "Mkfs" " /dev" refl
      (inr (inl refl))

clean : ¬ IsDenied (plain "drop__grep")
unfolding check deny_list contains strip_prefix to_lowercase allow_list last_piece split_once
clean h = let (p, e, o) = (check-deny_iff (plain "drop__grep")).0 h in cc

check-allow_namespaced_test : check default_chain (plain "drop__grep") ≡ allow
unfolding contains strip_prefix
check-allow_namespaced_test =
    check-allow_namespaced (plain "drop__grep") "drop" "grep" refl refl (inr (inr (inl refl))) clean

check-allow_iff_example :
    (check default_chain (call "bash" "sudo rm -rf /") ≡ allow)
    ↔ ((¬ IsDenied (call "bash" "sudo rm -rf /")) × IsAllowed (call "bash" "sudo rm -rf /"))
check-allow_iff_example = check-allow_iff (call "bash" "sudo rm -rf /")

check-asks_iff_example :
    ((reason : String) × (check default_chain (plain "unknown") ≡ requires_approval reason))
    ↔ ((¬ IsDenied (plain "unknown")) × (¬ IsAllowed (plain "unknown")))
check-asks_iff_example = check-asks_iff (plain "unknown")
