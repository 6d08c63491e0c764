-- ===== src/Skills/Routing.antt =====
-- Where a tool call goes.
use mathlib.Core.Option
use edgeclaw.Prelude.{
  String, ◌≡◌, refl, ap, ◌∙◌, subst, true, false, Option, none, some, inl, inr, Any, List, [], ◌∷◌,
  ◌++◌, str_eq, str_eq_refl, append_assoc, All, All-append, All-weaken,
}
use edgeclaw.Prelude.Text.{◌<>◌, contains, split_once}
use edgeclaw.Prelude.Text.Laws.{<>_assoc, split_once-append}
use edgeclaw.Types.{
  ToolDefinition, ToolCall, ToolResult, AgentError, skill_not_found, Result, ok, err, and_then,
}
use edgeclaw.Host.{Host}
use edgeclaw.Mcp.{Codec, call_tool}
use edgeclaw.Skills.{SkillRegistry, RegisteredSkill, all_tools, skill_tools, call_skill, dispatch}

-- The first separator in a tool's name is the one that `all_tools` wrote.
abbrev pub Routable : String → Type 0
Routable name = contains "__" (name <> "_") ≡ false

-- No skill has the name of an earlier one.
abbrev pub Distinct : SkillRegistry → SkillRegistry → Type 0
Distinct before [] = Unit {0}
Distinct before (s ∷ ss) =
    All (λ t. str_eq t.name s.name ≡ false) before × Distinct (before ++ s ∷ []) ss

-- The definition of the skill's tool is among those.
abbrev pub Offered : RegisteredSkill → List ToolDefinition → ToolDefinition → Type 0
Offered skill offered tool =
    Any (λ d. d ≡ record tool { name = skill.name <> ("__" <> tool.name) }) offered

Any-left : (P : ToolDefinition → Type 0) (xs ys : List ToolDefinition) → Any P xs → Any P (xs ++ ys)
Any-left P [] ys h = absurd h
Any-left P (x ∷ xs) ys (inl h) = inl h
Any-left P (x ∷ xs) ys (inr h) = inr (Any-left P xs ys h)

Any-right :
    (P : ToolDefinition → Type 0) (xs ys : List ToolDefinition) → Any P ys → Any P (xs ++ ys)
Any-right P [] ys h = h
Any-right P (x ∷ xs) ys h = inr (Any-right P xs ys h)

skill_tools-Offered :
    (skill : RegisteredSkill) (tools : List ToolDefinition)
    → All (Offered skill (skill_tools skill.name tools)) tools
unfolding skill_tools
skill_tools-Offered skill [] = tt
skill_tools-Offered skill (tool ∷ tools) = (
  inl refl,
  All-weaken (Offered skill (skill_tools skill.name tools))
      (Offered skill (skill_tools skill.name (tool ∷ tools))) tools (λ t h. inr h)
      (skill_tools-Offered skill tools),
)

all_tools-Offered :
    (registry : SkillRegistry) → All (λ s. All (Offered s (all_tools registry)) s.tools) registry
unfolding all_tools
all_tools-Offered [] = tt
all_tools-Offered (skill ∷ rest) = (
  All-weaken _ (Offered skill (all_tools (skill ∷ rest))) skill.tools
      (λ t h. Any-left _ (skill_tools skill.name skill.tools) (all_tools rest) h)
      (skill_tools-Offered skill skill.tools),
  All-weaken (λ s. All (Offered s (all_tools rest)) s.tools)
      (λ s. All (Offered s (all_tools (skill ∷ rest))) s.tools) rest
      (λ s h.
        All-weaken _ (Offered s (all_tools (skill ∷ rest))) s.tools
          (λ t k. Any-right _ (skill_tools skill.name skill.tools) (all_tools rest) k) h)
      (all_tools-Offered rest),
)

module _ {W : Type 0} (host : Host W) (codec : Codec) where
  abbrev pub Reply : Type 0
  Reply = Result ToolResult AgentError × SkillRegistry × W

  -- What a call of the skill's own tool gives; the other skills stay as they are.
  abbrev pub answered :
      SkillRegistry → RegisteredSkill → SkillRegistry → String → ToolCall → W → Reply
  answered before skill after tool tc w =
      let (r, client, w') = call_tool host codec skill.client tool tc.input w in
      (
        and_then r (λ t. ok (record t { tool_use_id = tc.id })),
        before ++ (record skill { client = client }) ∷ after,
        w',
      )

  abbrev behind : RegisteredSkill → Reply → Reply
  behind s (r, skills, w) = (r, s ∷ skills, w)

  call_skill-reaches :
      (before : SkillRegistry) (skill : RegisteredSkill) (after : SkillRegistry) (tool : String)
      (tc : ToolCall) (w : W)
      → All (λ t. str_eq t.name skill.name ≡ false) before
      → call_skill host codec skill.name tool tc (before ++ skill ∷ after) w
        ≡ answered before skill after tool tc w
  unfolding call_skill
  call_skill-reaches [] skill after tool tc w h = rw (str_eq_refl skill.name, call_skill) refl
  call_skill-reaches (t ∷ before) skill after tool tc w h =
      rw (h.0, call_skill) (ap (behind t) (call_skill-reaches before skill after tool tc w h.1))

  dispatch-split :
      (tc : ToolCall) (name tool : String) (registry : SkillRegistry) (w : W)
      → split_once "__" tc.name ≡ some (name, tool)
      → dispatch host codec tc registry w ≡ call_skill host codec name tool tc registry w
  unfolding dispatch
  dispatch-split tc name tool registry w e = rw (e, dispatch) refl

  dispatch-reaches :
      (before : SkillRegistry) (skill : RegisteredSkill) (after : SkillRegistry) (tool : String)
      (tc : ToolCall) (w : W)
      → Routable skill.name
      → All (λ t. str_eq t.name skill.name ≡ false) before
      → tc.name ≡ skill.name <> ("__" <> tool)
      → dispatch host codec tc (before ++ skill ∷ after) w ≡ answered before skill after tool tc w
  dispatch-reaches before skill after tool tc w h d e =
      dispatch-split tc skill.name tool _ w
        (ap (split_once "__") e ∙ split_once-append "_" _ skill.name tool h)
      ∙ call_skill-reaches before skill after tool tc w d

  -- The definition is that of a tool of one skill, under the skill's name, and a call of it is a call of that tool.
  abbrev pub Routed : SkillRegistry → ToolDefinition → Type 0
  Routed registry d =
      (before : SkillRegistry) × (skill : RegisteredSkill) × (after : SkillRegistry)
      × (tool : ToolDefinition) × (registry ≡ before ++ skill ∷ after)
      × Any (λ t. t ≡ tool) skill.tools
      × (d ≡ record tool { name = skill.name <> ("__" <> tool.name) })
      × ((tc : ToolCall) (w : W)
          → tc.name ≡ d.name
          → dispatch host codec tc registry w ≡ answered before skill after tool.name tc w)

  skill_tools-Routed :
      (before : SkillRegistry) (skill : RegisteredSkill) (after : SkillRegistry)
      (tools : List ToolDefinition)
      → ((tool : ToolDefinition) → Any (λ t. t ≡ tool) tools → Any (λ t. t ≡ tool) skill.tools)
      → Routable skill.name
      → All (λ t. str_eq t.name skill.name ≡ false) before
      → All (Routed (before ++ skill ∷ after)) (skill_tools skill.name tools)
  unfolding skill_tools
  skill_tools-Routed before skill after [] own h d = tt
  skill_tools-Routed before skill after (tool ∷ tools) own h d = (
    (
      before,
      skill,
      after,
      tool,
      refl,
      own tool (inl refl),
      refl,
      λ tc w e. dispatch-reaches before skill after tool.name tc w h d e,
    ),
    skill_tools-Routed before skill after tools (λ t m. own t (inr m)) h d,
  )

  all_tools-from :
      (before rest : SkillRegistry)
      → Distinct before rest
      → All (λ s. Routable s.name) rest
      → All (Routed (before ++ rest)) (all_tools rest)
  unfolding all_tools
  all_tools-from before [] d h = tt
  all_tools-from before (skill ∷ rest) d h =
      All-append (Routed (before ++ skill ∷ rest)) (skill_tools skill.name skill.tools)
        (all_tools rest) (skill_tools-Routed before skill rest skill.tools (λ t m. m) h.0 d.0)
        (subst (λ r. All (Routed r) (all_tools rest)) (append_assoc before (skill ∷ []) rest)
          (all_tools-from (before ++ skill ∷ []) rest d.1 h.1))

  -- Where the skills' names are distinct and routable, every definition that `all_tools` offers is that of a tool of
  -- one skill of the registry, under the skill's name and two underscores, and a call of it is a call of that tool of
  -- that skill, whose client alone is changed; and every tool of every skill is offered.
  pub all_tools-dispatch :
      (registry : SkillRegistry)
      → Distinct [] registry
      → All (λ s. Routable s.name) registry
      → All (Routed registry) (all_tools registry)
        × All (λ s. All (Offered s (all_tools registry)) s.tools) registry
  all_tools-dispatch registry d h = (all_tools-from [] registry d h, all_tools-Offered registry)

  -- The first skill of a name, between those before and after it.
  abbrev pub first_named :
      String → SkillRegistry → Option (SkillRegistry × RegisteredSkill × SkillRegistry)
  first_named name [] = none
  first_named name (s ∷ registry) = elim (str_eq s.name name) [
    | true ↦ some ([], s, registry)
    | false ↦ Option.map (λ p. (s ∷ p.0, p.1, p.2)) (first_named name registry)
  ]

  -- What a call of a tool of the first skill of the name gives, and what it gives if there is none.
  abbrev pub answered_first :
      String
      → String
      → ToolCall
      → SkillRegistry
      → W
      → Option (SkillRegistry × RegisteredSkill × SkillRegistry)
      → Reply
  answered_first name tool tc registry w none = (err (skill_not_found name), registry, w)
  answered_first name tool tc registry w (some (before, skill, after)) =
      answered before skill after tool tc w

  answered_first-behind :
      (name tool : String) (tc : ToolCall) (s : RegisteredSkill) (registry : SkillRegistry) (w : W)
      (o : Option (SkillRegistry × RegisteredSkill × SkillRegistry))
      → behind s (answered_first name tool tc registry w o)
        ≡ answered_first name tool tc (s ∷ registry) w (Option.map (λ p. (s ∷ p.0, p.1, p.2)) o)
  answered_first-behind name tool tc s registry w none = refl
  answered_first-behind name tool tc s registry w (some (before, skill, after)) = refl

  call_skill-first :
      (name tool : String) (tc : ToolCall) (registry : SkillRegistry) (w : W)
      → call_skill host codec name tool tc registry w
        ≡ answered_first name tool tc registry w (first_named name registry)
  unfolding call_skill
  call_skill-first name tool tc [] w = refl
  call_skill-first name tool tc (s ∷ registry) w =
      let rest =
        ap (behind s) (call_skill-first name tool tc registry w)
        ∙ answered_first-behind name tool tc s registry w (first_named name registry) in
      let at : SkillRegistry × RegisteredSkill × SkillRegistry = ([], s, registry) in
      elim (str_eq s.name name)
        as (λ b.
          elim b [
            | true ↦ answered [] s registry tool tc w
            | false ↦ behind s (call_skill host codec name tool tc registry w)
          ]
          ≡ answered_first name tool tc (s ∷ registry) w (elim b [
            | true ↦ some at
            | false ↦ Option.map (λ p. (s ∷ p.0, p.1, p.2)) (first_named name registry)
          ])) [ true ↦ refl | false ↦ rest ]

  -- If a skill's name ends in an underscore, and the name without that neither ends in one nor has two in a row, a
  -- call under its name is not a call of its tool: it is one of the first skill of the name without the underscore,
  -- for a tool whose name has an underscore in front, and it fails, with nothing changed, if there is no such skill.
  pub dispatch-underscore :
      (name tool : String) (tc : ToolCall) (registry : SkillRegistry) (w : W)
      → Routable name
      → tc.name ≡ (name <> "_") <> ("__" <> tool)
      → dispatch host codec tc registry w
        ≡ answered_first name ("_" <> tool) tc registry w (first_named name registry)
  dispatch-underscore name tool tc registry w h e =
      dispatch-split tc name ("_" <> tool) registry w (
        ap (split_once "__") (e ∙ <>_assoc name "_" ("__" <> tool))
        ∙ split_once-append "_" _ name ("_" <> tool) h)
      ∙ call_skill-first name ("_" <> tool) tc registry w
