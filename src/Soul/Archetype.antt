-- ===== src/Soul/Archetype.antt =====
-- crates/agent-core/src/soul.rs: the enum `Archetype`, its texts and its parser.
use edgeclaw.Prelude.{String, ◌≡◌, refl, ◌↔◌, str_eq, eq_iff, if◌then◌else◌, arith}
use edgeclaw.Prelude.Text.{◌<>◌}
use edgeclaw.Types.{Result, ok, err}

pub data Archetype : Type 0 where
  assistant engineer researcher operator mentor : Archetype

-- `Default`.
abbrev pub default : Archetype
default = assistant

unfoldable pub prompt_fragment : Archetype → String
prompt_fragment assistant =
    "You are a versatile personal assistant. You help with tasks efficiently, communicate clearly, and adapt to the user's needs."
prompt_fragment engineer =
    "You are a software engineer. You think in systems, write clean code, debug methodically, and favor practical solutions over theoretical perfection."
prompt_fragment researcher =
    "You are a researcher. You investigate topics deeply, cite sources when possible, weigh evidence carefully, and distinguish established facts from speculation."
prompt_fragment operator =
    "You are an operations specialist. You focus on reliability, automation, monitoring, and keeping systems running smoothly. You think about failure modes and recovery."
prompt_fragment mentor =
    "You are a mentor and teacher. You explain concepts clearly, build on what the learner already knows, ask guiding questions, and encourage independent thinking."

-- `Display`.
unfoldable pub display : Archetype → String
display assistant = "assistant"
display engineer = "engineer"
display researcher = "researcher"
display operator = "operator"
display mentor = "mentor"

-- `FromStr`.
unfoldable pub from_str : String → Result Archetype String
from_str s =
    if str_eq s "assistant"
    then ok assistant
    else if str_eq s "engineer"
    then ok engineer
    else if str_eq s "researcher"
    then ok researcher
    else if str_eq s "operator"
    then ok operator
    else if str_eq s "mentor"
    then ok mentor
    else err (
        "unknown archetype: '" <> s
        <> "'. Expected: assistant, engineer, researcher, operator, mentor")

pub from_str-display : (a : Archetype) → from_str (display a) ≡ ok a
unfolding from_str display
from_str-display assistant = refl
from_str-display engineer = refl
from_str-display researcher = refl
from_str-display operator = refl
from_str-display mentor = refl

display-from_str : (s : String) (a : Archetype) → from_str s ≡ ok a → s ≡ display a
unfolding from_str display
display-from_str s assistant h = ground (
  arith,
  eq_iff s "assistant",
  eq_iff s "engineer",
  eq_iff s "researcher",
  eq_iff s "operator",
  eq_iff s "mentor",
)
display-from_str s engineer h = ground (
  arith,
  eq_iff s "assistant",
  eq_iff s "engineer",
  eq_iff s "researcher",
  eq_iff s "operator",
  eq_iff s "mentor",
)
display-from_str s researcher h = ground (
  arith,
  eq_iff s "assistant",
  eq_iff s "engineer",
  eq_iff s "researcher",
  eq_iff s "operator",
  eq_iff s "mentor",
)
display-from_str s operator h = ground (
  arith,
  eq_iff s "assistant",
  eq_iff s "engineer",
  eq_iff s "researcher",
  eq_iff s "operator",
  eq_iff s "mentor",
)
display-from_str s mentor h = ground (
  arith,
  eq_iff s "assistant",
  eq_iff s "engineer",
  eq_iff s "researcher",
  eq_iff s "operator",
  eq_iff s "mentor",
)

-- The parser accepts the displayed texts, each as its value, and no other text.
pub archetype_iff : (s : String) (a : Archetype) → (from_str s ≡ ok a) ↔ (s ≡ display a)
archetype_iff s a = (display-from_str s a, λ e. rw e (from_str-display a))
