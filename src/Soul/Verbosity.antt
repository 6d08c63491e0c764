-- ===== src/Soul/Verbosity.antt =====
-- crates/agent-core/src/soul.rs: the enum `Verbosity`, its texts and its parser.
use edgeclaw.Prelude.{String, ◌≡◌, refl, ◌↔◌, str_eq, eq_iff, if◌then◌else◌, arith}
use edgeclaw.Prelude.Text.{◌<>◌}
use edgeclaw.Types.{Result, ok, err}

pub data Verbosity : Type 0 where
  terse balanced thorough : Verbosity

-- `Default`.
abbrev pub default : Verbosity
default = balanced

unfoldable pub prompt_fragment : Verbosity → String
prompt_fragment terse = "Keep responses short and to the point. Omit filler."
prompt_fragment balanced = "Provide enough detail to be helpful without being verbose."
prompt_fragment thorough =
    "Give comprehensive, detailed responses. Explain your reasoning and cover edge cases."

-- `Display`.
unfoldable pub display : Verbosity → String
display terse = "terse"
display balanced = "balanced"
display thorough = "thorough"

-- `FromStr`.
unfoldable pub from_str : String → Result Verbosity String
from_str s =
    if str_eq s "terse"
    then ok terse
    else if str_eq s "balanced"
    then ok balanced
    else if str_eq s "thorough"
    then ok thorough
    else err ("unknown verbosity: '" <> s <> "'. Expected: terse, balanced, thorough")

pub from_str-display : (v : Verbosity) → from_str (display v) ≡ ok v
unfolding from_str display
from_str-display terse = refl
from_str-display balanced = refl
from_str-display thorough = refl

display-from_str : (s : String) (v : Verbosity) → from_str s ≡ ok v → s ≡ display v
unfolding from_str display
display-from_str s terse h =
    ground (arith, eq_iff s "terse", eq_iff s "balanced", eq_iff s "thorough")
display-from_str s balanced h =
    ground (arith, eq_iff s "terse", eq_iff s "balanced", eq_iff s "thorough")
display-from_str s thorough h =
    ground (arith, eq_iff s "terse", eq_iff s "balanced", eq_iff s "thorough")

-- The parser accepts the displayed texts, each as its value, and no other text.
pub verbosity_iff : (s : String) (v : Verbosity) → (from_str s ≡ ok v) ↔ (s ≡ display v)
verbosity_iff s v = (display-from_str s v, λ e. rw e (from_str-display v))
