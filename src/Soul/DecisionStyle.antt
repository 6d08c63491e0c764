-- ===== src/Soul/DecisionStyle.antt =====
-- crates/agent-core/src/soul.rs: the enum `DecisionStyle`, its texts and its parser.
use edgeclaw.Prelude.{String, ◌≡◌, refl, ◌↔◌, str_eq, eq_iff, if◌then◌else◌, arith}
use edgeclaw.Prelude.Text.{◌<>◌}
use edgeclaw.Types.{Result, ok, err}

pub data DecisionStyle : Type 0 where
  cautious balanced autonomous : DecisionStyle

-- `Default`.
abbrev pub default : DecisionStyle
default = balanced

unfoldable pub prompt_fragment : DecisionStyle → String
prompt_fragment cautious =
    "Always ask for confirmation before taking significant actions. Err on the side of caution."
prompt_fragment balanced =
    "Use your judgment for routine decisions but confirm before high-impact actions."
prompt_fragment autonomous =
    "Act independently when possible. Make decisions and proceed without asking unless the consequences are irreversible."

-- `Display`.
unfoldable pub display : DecisionStyle → String
display cautious = "cautious"
display balanced = "balanced"
display autonomous = "autonomous"

-- `FromStr`.
unfoldable pub from_str : String → Result DecisionStyle String
from_str s =
    if str_eq s "cautious"
    then ok cautious
    else if str_eq s "balanced"
    then ok balanced
    else if str_eq s "autonomous"
    then ok autonomous
    else err ("unknown decision style: '" <> s <> "'. Expected: cautious, balanced, autonomous")

pub from_str-display : (d : DecisionStyle) → from_str (display d) ≡ ok d
unfolding from_str display
from_str-display cautious = refl
from_str-display balanced = refl
from_str-display autonomous = refl

display-from_str : (s : String) (d : DecisionStyle) → from_str s ≡ ok d → s ≡ display d
unfolding from_str display
display-from_str s cautious h =
    ground (arith, eq_iff s "cautious", eq_iff s "balanced", eq_iff s "autonomous")
display-from_str s balanced h =
    ground (arith, eq_iff s "cautious", eq_iff s "balanced", eq_iff s "autonomous")
display-from_str s autonomous h =
    ground (arith, eq_iff s "cautious", eq_iff s "balanced", eq_iff s "autonomous")

-- The parser accepts the displayed texts, each as its value, and no other text.
pub decision_style_iff : (s : String) (d : DecisionStyle) → (from_str s ≡ ok d) ↔ (s ≡ display d)
decision_style_iff s d = (display-from_str s d, λ e. rw e (from_str-display d))
