-- ===== src/Soul/Tone.antt =====
-- crates/agent-core/src/soul.rs: the enum `Tone`, its texts and its parser.
use edgeclaw.Prelude.{String, ◌≡◌, refl, ◌↔◌, str_eq, eq_iff, if◌then◌else◌, arith}
use edgeclaw.Prelude.Text.{◌<>◌}
use edgeclaw.Types.{Result, ok, err}

pub data Tone : Type 0 where
  neutral friendly direct formal : Tone

-- `Default`.
abbrev pub default : Tone
default = neutral

unfoldable pub prompt_fragment : Tone → String
prompt_fragment neutral = "Maintain a balanced, professional tone."
prompt_fragment friendly = "Be warm, approachable, and conversational."
prompt_fragment direct = "Be concise and straightforward. Skip pleasantries and get to the point."
prompt_fragment formal = "Use formal language and a professional register."

-- `Display`.
unfoldable pub display : Tone → String
display neutral = "neutral"
display friendly = "friendly"
display direct = "direct"
display formal = "formal"

-- `FromStr`.
unfoldable pub from_str : String → Result Tone String
from_str s =
    if str_eq s "neutral"
    then ok neutral
    else if str_eq s "friendly"
    then ok friendly
    else if str_eq s "direct"
    then ok direct
    else if str_eq s "formal"
    then ok formal
    else err ("unknown tone: '" <> s <> "'. Expected: neutral, friendly, direct, formal")

pub from_str-display : (t : Tone) → from_str (display t) ≡ ok t
unfolding from_str display
from_str-display neutral = refl
from_str-display friendly = refl
from_str-display direct = refl
from_str-display formal = refl

display-from_str : (s : String) (t : Tone) → from_str s ≡ ok t → s ≡ display t
unfolding from_str display
display-from_str s neutral h =
    ground (arith, eq_iff s "neutral", eq_iff s "friendly", eq_iff s "direct", eq_iff s "formal")
display-from_str s friendly h =
    ground (arith, eq_iff s "neutral", eq_iff s "friendly", eq_iff s "direct", eq_iff s "formal")
display-from_str s direct h =
    ground (arith, eq_iff s "neutral", eq_iff s "friendly", eq_iff s "direct", eq_iff s "formal")
display-from_str s formal h =
    ground (arith, eq_iff s "neutral", eq_iff s "friendly", eq_iff s "direct", eq_iff s "formal")

-- The parser accepts the displayed texts, each as its value, and no other text.
pub tone_iff : (s : String) (t : Tone) → (from_str s ≡ ok t) ↔ (s ≡ display t)
tone_iff s t = (display-from_str s t, λ e. rw e (from_str-display t))
