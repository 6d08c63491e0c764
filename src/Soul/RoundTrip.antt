-- ===== src/Soul/RoundTrip.antt =====
-- A soul that is written as a SOUL.md and read back.
use edgeclaw.Prelude.{
  String, ◌≡◌, refl, ap, ◌∙◌, false, Bool-cases, inl, inr, some, if◌then◌else◌, eq_iff, arith,
}
use edgeclaw.Prelude.Text.{
  ◌<>◌, contains, strip_prefix, trim, trim_start, trim_start_matches, is_whitespace,
  trim_end_matches,
}
use edgeclaw.Prelude.Text.Laws.{<>_assoc, split_once-append}
use edgeclaw.Prelude.Text.Trims.{trim-trim_start-newline, contains-line}
use edgeclaw.Types.{Result, ok}
use edgeclaw.Soul.{
  Soul, SoulFrontmatter, parse_soul_md, parse_parts, assemble, frontmatter, to_soul_md, is_fence,
  is_empty,
}
use edgeclaw.Soul.Archetype
use edgeclaw.Soul.Tone
use edgeclaw.Soul.Verbosity
use edgeclaw.Soul.DecisionStyle

-- The lines behind the closing fence.
abbrev ending : Soul → String
ending soul = "\n" <> (if is_empty soul.personality then "" else "\n" <> soul.personality <> "\n")

-- What reading makes of a personality.
abbrev pub read_back : String → String
read_back p = trim (trim_start_matches is_fence p)

-- What the fields say, all given.
abbrev pub given : Soul → SoulFrontmatter
given soul = record {
  name = some soul.name;
  archetype = some (Archetype.display soul.archetype);
  tone = some (Tone.display soul.tone);
  verbosity = some (Verbosity.display soul.verbosity);
  decision_style = some (DecisionStyle.display soul.decision_style);
}

archetype_line : (a : Archetype.Archetype) → contains "\n" (Archetype.display a) ≡ false
unfolding Archetype.display contains strip_prefix
archetype_line Archetype.assistant = refl
archetype_line Archetype.engineer = refl
archetype_line Archetype.researcher = refl
archetype_line Archetype.operator = refl
archetype_line Archetype.mentor = refl

tone_line : (a : Tone.Tone) → contains "\n" (Tone.display a) ≡ false
unfolding Tone.display contains strip_prefix
tone_line Tone.neutral = refl
tone_line Tone.friendly = refl
tone_line Tone.direct = refl
tone_line Tone.formal = refl

verbosity_line : (a : Verbosity.Verbosity) → contains "\n" (Verbosity.display a) ≡ false
unfolding Verbosity.display contains strip_prefix
verbosity_line Verbosity.terse = refl
verbosity_line Verbosity.balanced = refl
verbosity_line Verbosity.thorough = refl

decision_style_line :
    (a : DecisionStyle.DecisionStyle) → contains "\n" (DecisionStyle.display a) ≡ false
unfolding DecisionStyle.display contains strip_prefix
decision_style_line DecisionStyle.cautious = refl
decision_style_line DecisionStyle.balanced = refl
decision_style_line DecisionStyle.autonomous = refl

-- A part without a newline is passed over.
pass_over :
    (a t u : String)
    → contains "\n" a ≡ false
    → contains "\n---" ((a <> t) <> u) ≡ contains "\n---" (t <> u)
pass_over a t u h = rw (<>_assoc a t u) (contains-line "---" a (t <> u) h)

-- No line between the fences starts like the closing one.
frontmatter-quiet :
    (soul : Soul)
    → contains "\n" soul.name ≡ false
    → contains "\n---" (frontmatter soul <> "\n--") ≡ false
unfolding frontmatter contains strip_prefix
frontmatter-quiet soul h =
    pass_over soul.name _ "\n--" h
    ∙ pass_over (Archetype.display soul.archetype) _ "\n--" (archetype_line soul.archetype)
    ∙ pass_over (Tone.display soul.tone) _ "\n--" (tone_line soul.tone)
    ∙ pass_over (Verbosity.display soul.verbosity) _ "\n--" (verbosity_line soul.verbosity)
    ∙ contains-line "---" (DecisionStyle.display soul.decision_style) "\n--"
        (decision_style_line soul.decision_style)

ending-personality :
    (soul : Soul) → trim (trim_start_matches is_fence (ending soul)) ≡ read_back soul.personality
unfolding trim_start_matches trim_end_matches trim is_fence
ending-personality soul = elim (Bool-cases (is_empty soul.personality)) [
  | inl e ↦
      let p : ◌≡◌ {A = String} soul.personality "" = ground (arith, eq_iff soul.personality "") in
      rw (e, p)
  | inr e ↦ rw e (trim-trim_start-newline is_fence refl soul.personality)
]

module _ (from_yaml : String → Result SoulFrontmatter String) where
  parse_fenced :
      (y tail : String)
      → contains "\n---" (y <> "\n--") ≡ false
      → parse_soul_md from_yaml ("---" <> (y <> ("\n---" <> tail)))
        ≡ parse_parts from_yaml (some (y, tail))
  unfolding parse_soul_md trim_start trim_start_matches is_whitespace strip_prefix
  parse_fenced y tail h = ap (parse_parts from_yaml) (split_once-append "\n--" _ y tail h)

  parse_parts-given :
      (soul : Soul)
      → from_yaml (frontmatter soul) ≡ ok (given soul)
      → parse_parts from_yaml (some (frontmatter soul, ending soul))
        ≡ ok (record soul { personality = read_back soul.personality })
  unfolding parse_parts assemble
  parse_parts-given soul y =
      rw
        (
          y,
          parse_parts,
          Archetype.from_str-display soul.archetype,
          Tone.from_str-display soul.tone,
          Verbosity.from_str-display soul.verbosity,
          DecisionStyle.from_str-display soul.decision_style,
          ending-personality soul,
        )
        refl

  -- A soul whose name has no newline is read back from its SOUL.md, if the YAML reader takes the fields
  -- from the lines. Of its personality, dashes and newlines in front, and white space around the rest, are lost.
  pub parse_soul_md-to_soul_md :
      (soul : Soul)
      → contains "\n" soul.name ≡ false
      → from_yaml (frontmatter soul) ≡ ok (given soul)
      → parse_soul_md from_yaml (to_soul_md soul)
        ≡ ok (record soul { personality = read_back soul.personality })
  unfolding to_soul_md
  parse_soul_md-to_soul_md soul h y =
      parse_fenced (frontmatter soul) (ending soul) (frontmatter-quiet soul h)
      ∙ parse_parts-given soul y
