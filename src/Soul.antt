-- ===== src/Soul.antt =====
-- crates/agent-core/src/soul.rs: an agent's character, the system prompt made of it, and the
-- SOUL.md format.
pub mod Archetype
pub mod Tone
pub mod Verbosity
pub mod DecisionStyle
pub mod RoundTrip
mod Tests
use edgeclaw.Prelude.{
  String, Char, code, Option, none, some, Bool, true, false, ◌||◌, ◌==◌, if◌then◌else◌, str_eq,
  unwrap_or,
}
use edgeclaw.Prelude.Text.{◌<>◌, strip_prefix, split_once, trim, trim_start, trim_start_matches}
use edgeclaw.Types.{Result, ok, err}

pub record Soul : Type 0 where
  pub name : String
  pub personality : String
  pub archetype : Archetype.Archetype
  pub tone : Tone.Tone
  pub verbosity : Verbosity.Verbosity
  pub decision_style : DecisionStyle.DecisionStyle

-- `Soul::default`.
abbrev pub default : Soul
default = record {
  name = "Assistant";
  personality = "";
  archetype = Archetype.default;
  tone = Tone.default;
  verbosity = Verbosity.default;
  decision_style = DecisionStyle.default;
}

abbrev pub is_empty : String → Bool
is_empty s = str_eq s ""

unfoldable pub identity : Soul → String
identity soul =
    if is_empty soul.name
    then Archetype.prompt_fragment soul.archetype
    else "Your name is " <> soul.name <> ". " <> Archetype.prompt_fragment soul.archetype

unfoldable pub traits_line : Soul → String
traits_line soul =
    Tone.prompt_fragment soul.tone
    <> " "
    <> Verbosity.prompt_fragment soul.verbosity
    <> " "
    <> DecisionStyle.prompt_fragment soul.decision_style

-- `compose_system_prompt`.
unfoldable pub compose_system_prompt : Soul → String
unfolding identity traits_line
compose_system_prompt soul =
    let body =
      if is_empty soul.personality
      then identity soul
      else identity soul <> "\n\n" <> soul.personality in
    body <> "\n\n" <> traits_line soul

-- `SoulParseError`.
pub data SoulParseError : Type 0 where
  missing_frontmatter : SoulParseError
  invalid_yaml : String → SoulParseError

pub record SoulFrontmatter : Type 0 where
  pub name : Option String
  pub archetype : Option String
  pub tone : Option String
  pub verbosity : Option String
  pub decision_style : Option String

-- `.and_then(|s| T::from_str(&s).ok()).unwrap_or(d)`, and `from_str(&s).unwrap_or_default()`.
abbrev pub parsed_or : {A : Type 0} → Result A String → A → A
parsed_or (ok a) d = a
parsed_or (err e) d = d

abbrev pub field_or : {A : Type 0} → (String → Result A String) → A → Option String → A
field_or parse d none = d
field_or parse d (some s) = parsed_or (parse s) d

-- `['\n', '\r', '-']`.
unfoldable pub is_fence : Char → Bool
is_fence c = code c == b'\n' || code c == b'\r' || code c == b'-'

-- What `parse_soul_md` makes of the two parts of the text.
unfoldable pub assemble : SoulFrontmatter → String → Soul
unfolding is_fence
assemble fm body = record {
  name = unwrap_or fm.name default.name;
  personality = trim (trim_start_matches is_fence body);
  archetype = field_or Archetype.from_str Archetype.default fm.archetype;
  tone = field_or Tone.from_str Tone.default fm.tone;
  verbosity = field_or Verbosity.from_str Verbosity.default fm.verbosity;
  decision_style = field_or DecisionStyle.from_str DecisionStyle.default fm.decision_style;
}

-- The reader of the frontmatter is serde_yaml's `from_str`.
module _ (from_yaml : String → Result SoulFrontmatter String) where
  unfoldable pub parse_parts : Option (String × String) → Result Soul SoulParseError
  unfolding assemble
  parse_parts none = err missing_frontmatter
  parse_parts (some (yaml, body)) = elim (from_yaml yaml) [
    | ok fm ↦ ok (assemble fm body)
    | err e ↦ err (invalid_yaml e)
  ]

  -- `parse_soul_md`.
  unfoldable pub parse_soul_md : String → Result Soul SoulParseError
  unfolding parse_parts
  parse_soul_md input = elim (strip_prefix "---" (trim_start input)) [
    | none ↦ err missing_frontmatter
    | some rest ↦ parse_parts (split_once "\n---" rest)
  ]

-- The lines between the fences that `to_soul_md` writes, from the end of the first fence on.
unfoldable pub frontmatter : Soul → String
frontmatter soul =
    "\nname: "
    <> soul.name
    <> "\narchetype: "
    <> Archetype.display soul.archetype
    <> "\ntone: "
    <> Tone.display soul.tone
    <> "\nverbosity: "
    <> Verbosity.display soul.verbosity
    <> "\ndecision_style: "
    <> DecisionStyle.display soul.decision_style

-- `to_soul_md`.
unfoldable pub to_soul_md : Soul → String
unfolding frontmatter
to_soul_md soul =
    "---"
    <> frontmatter soul
    <> "\n---"
    <> "\n"
    <> (if is_empty soul.personality then "" else "\n" <> soul.personality <> "\n")
