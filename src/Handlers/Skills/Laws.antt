-- ===== src/Handlers/Skills/Laws.antt =====
-- What adding and removing skills does to the skills that the turns of a user load.
use edgeclaw.Prelude.{
  String, ◌≡◌, refl, sym, ap, subst, Option, none, some, Bool, true, false, Bool-cases, not, List,
  [], ◌∷◌, ◌++◌, retain, any, filter_map, str_eq, str_eq_refl, eq_iff, arith, inl, inr, All,
  if◌then◌else◌,
}
use edgeclaw.Types.{Result, ok, err, AgentError, ToolDefinition}
use edgeclaw.Skills.{SkillRow, SkillRegistry, RegisteredSkill, from_row, register}
use edgeclaw.Skills.Rows.{restarted, Sound, register-Sound}
use edgeclaw.Database.{Tables, load_skills, owned, ensure_user}
use edgeclaw.Turn.{World, Server}
use edgeclaw.Prelude.Int.{ℤ}
use edgeclaw.Json.{bool, string, object, field, end}
use edgeclaw.Types.{display_error}
use edgeclaw.Handlers.{Reply, internal_error}
use edgeclaw.Handlers.Skills.{
  AddSkillRequest, has_skill, without_skill, goes_before, put_in_order, put_skill, after_register,
  add_skill, remove_skill,
}

abbrev pub other_name : String → SkillRow → Bool
other_name name row = not (str_eq row.name name)

owned-without :
    (user_id name : String) (skills : List (String × SkillRow))
    → filter_map (owned user_id) (without_skill user_id name skills)
      ≡ retain (other_name name) (filter_map (owned user_id) skills)
unfolding without_skill has_skill
owned-without user_id name [] = refl
owned-without user_id name ((owner, row) ∷ skills) =
    ground (arith, owned-without user_id name skills)

owned-without_others :
    (user_id other name : String) (skills : List (String × SkillRow))
    → str_eq user_id other ≡ false
    → filter_map (owned other) (without_skill user_id name skills) ≡ filter_map (owned other) skills
unfolding without_skill has_skill
owned-without_others user_id other name [] d = refl
owned-without_others user_id other name ((owner, row) ∷ skills) d = ground (
  arith,
  eq_iff owner user_id,
  eq_iff owner other,
  eq_iff user_id other,
  owned-without_others user_id other name skills d,
)

any-owned :
    (user_id name : String) (skills : List (String × SkillRow))
    → any (λ row. str_eq row.name name) (filter_map (owned user_id) skills)
      ≡ any (has_skill user_id name) skills
unfolding has_skill
any-owned user_id name [] = refl
any-owned user_id name ((owner, row) ∷ skills) = ground (arith, any-owned user_id name skills)

-- The list with the row at some place of it.
abbrev pub Placed : SkillRow → List SkillRow → List SkillRow → Type 0
Placed row old new =
    (before : List SkillRow) × (after : List SkillRow) × (new ≡ before ++ row ∷ after)
    × (before ++ after ≡ old)

Placed-behind :
    (row : SkillRow) (old new : List SkillRow) (o : Option SkillRow)
    → Placed row old new
    → Placed row
        (elim o [ none ↦ old | some y ↦ y ∷ old ])
        (elim o [ none ↦ new | some y ↦ y ∷ new ])
Placed-behind row old new none h = h
Placed-behind row old new (some y) (before, after, p, q) =
    (y ∷ before, after, ap (◌∷◌ y) p, ap (◌∷◌ y) q)

owned-first :
    (user_id : String) (row : SkillRow) (skills : List (String × SkillRow))
    → filter_map (owned user_id) ((user_id, row) ∷ skills) ≡ row ∷ filter_map (owned user_id) skills
owned-first user_id row skills = ground (arith, str_eq_refl user_id)

owned-put_in_order :
    (user_id : String) (row : SkillRow) (skills : List (String × SkillRow))
    → Placed row
        (filter_map (owned user_id) skills)
        (filter_map (owned user_id) (put_in_order (user_id, row) skills))
unfolding put_in_order
owned-put_in_order user_id row [] = ([], [], owned-first user_id row [], refl)
owned-put_in_order user_id row ((owner, next) ∷ skills) =
    let later =
      Placed-behind row (filter_map (owned user_id) skills)
        (filter_map (owned user_id) (put_in_order (user_id, row) skills))
        (owned user_id (owner, next)) (owned-put_in_order user_id row skills) in
    elim (goes_before (user_id, row) (owner, next))
      as (λ b. Placed row (filter_map (owned user_id) ((owner, next) ∷ skills)) (
        filter_map (owned user_id) (
          if b
          then (user_id, row) ∷ (owner, next) ∷ skills
          else (owner, next) ∷ put_in_order (user_id, row) skills))) [
            | true ↦ (
              [],
              filter_map (owned user_id) ((owner, next) ∷ skills),
              owned-first user_id row ((owner, next) ∷ skills),
              refl,
            )
            | false ↦ later
          ]

load_skills-put_skill :
    (user_id : String) (row : SkillRow) (db : Tables)
    → Placed
        (record row { skill_context = none })
        (retain (other_name row.name) (load_skills user_id db))
        (load_skills user_id (put_skill user_id row db))
unfolding load_skills put_skill
load_skills-put_skill user_id row db =
    subst
      (λ old.
        Placed (record row { skill_context = none }) old
          (load_skills user_id (put_skill user_id row db)))
      (owned-without user_id row.name db.skills)
      (owned-put_in_order user_id (record row { skill_context = none })
        (without_skill user_id row.name db.skills))

-- Removing a skill takes it, and nothing else, from what the turns of its user load, and changes nothing for other
-- users; the reply has the skill's name where there was such a skill, and is 404 with "skill not found" where not.
pub remove_skill-Gone :
    (skill_name user_id : String) (db : Tables)
    → (load_skills user_id (remove_skill skill_name user_id db).1
        ≡ retain (other_name skill_name) (load_skills user_id db))
      × ((other : String)
          → str_eq user_id other ≡ false
          → load_skills other (remove_skill skill_name user_id db).1 ≡ load_skills other db)
      × ((remove_skill skill_name user_id db).0 ≡ (
          if any (λ row. str_eq row.name skill_name) (load_skills user_id db)
          then ok (object (field "removed" (bool true) (field "name" (string skill_name) end)))
          else err (record { status = 404; error = "skill not found" })))
unfolding load_skills remove_skill
remove_skill-Gone skill_name user_id db = (
  owned-without user_id skill_name db.skills,
  λ other d. owned-without_others user_id other skill_name db.skills d,
  ap
      (λ b.
        if b
        then ok (object (field "removed" (bool true) (field "name" (string skill_name) end)))
        else err (record { status = 404; error = "skill not found" }))
      (sym (any-owned user_id skill_name db.skills)),
)

other_names :
    (name : String) (rows : List SkillRow)
    → All (λ row. str_eq row.name name ≡ false) (retain (other_name name) rows)
other_names name [] = tt
other_names name (row ∷ rows) = elim (Bool-cases (str_eq row.name name)) [
  | inl e ↦ rw e (other_names name rows)
  | inr e ↦ rw e (e, other_names name rows)
]

module _ {O : Type 0} (server : Server O) where
  -- One row that the user's turns load is of the added skill, and it is the only one of its name.
  abbrev pub Offered : AddSkillRequest → Reply × World O → Type 0
  Offered body (err e, w) = Unit {0}
  Offered body (ok v, w) =
      (row : SkillRow) × (skill : RegisteredSkill) × (before : List SkillRow) × (after : List
        SkillRow)
      × (load_skills body.user_id w.db ≡ before ++ row ∷ after)
      × All (λ r. str_eq r.name row.name ≡ false) (before ++ after)
      × (skill.name ≡ body.name)
      × (from_row server.tools_json row ≡ ok skill)

  module _
      (reads : (tools : List ToolDefinition) (s : String)
        → server.tools_json.to_string tools ≡ ok s
        → server.tools_json.from_str s ≡ ok tools)
      (body : AddSkillRequest) where
    after_register-Offered :
        (now : ℤ) (registry : SkillRegistry)
        (x : Result SkillRow AgentError × SkillRegistry × World O)
        → Sound server.host server.codec server.tools_json reads body.name body.url now
            body.auth_header_name body.auth_header_value registry x
        → Offered body (after_register server body.user_id x)
    unfolding after_register
    after_register-Offered now registry (err e, registry', w) s = tt
    after_register-Offered now registry (ok row, registry', w) (skill, q, n, f) =
        let (before, after, p, o) = load_skills-put_skill body.user_id row w.db in
        (
          record row { skill_context = none },
          restarted skill,
          before,
          after,
          p,
          subst (All (λ r. str_eq r.name row.name ≡ false)) (sym o)
              (other_names row.name (load_skills body.user_id w.db)),
          n,
          unfold from_row in f,
        )

    by_registry :
        (now : ℤ) (w : World O) (r : Result SkillRegistry AgentError)
        → Offered body (elim r [
          | err e ↦ (err (internal_error (display_error e)), w)
          | ok registry ↦ after_register server body.user_id (
              register server.host server.codec server.tools_json body.name body.url now
                body.auth_header_name body.auth_header_value registry w)
        ])
    by_registry now w (err e) = tt
    by_registry now w (ok registry) = after_register-Offered now registry _ (
        register-Sound server.host server.codec server.tools_json reads body.name body.url now
          body.auth_header_name body.auth_header_value registry w)

    -- Where the handler that adds a skill replies, one of the rows that its user's turns load builds a skill of the name
    -- that was asked for, if serde_json reads back the tools that it wrote, and no other of them has that row's name.
    pub add_skill-Offered : (w : World O) → Offered body (add_skill server body w)
    unfolding add_skill
    add_skill-Offered w =
        by_registry (server.clock w)
          (record w { db = ensure_user body.user_id (server.clock w) w.db }) _
