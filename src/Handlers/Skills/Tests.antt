-- ===== src/Handlers/Skills/Tests.antt =====
-- A skill that is added, and one that is removed.
use edgeclaw.Prelude.{
  String, ◌≡◌, refl, none, some, [], ◌∷◌, true, false, if◌then◌else◌, any, retain, str_eq,
}
use edgeclaw.Prelude.Int.{pos}
use edgeclaw.Prelude.Text.{strip_prefix}
use edgeclaw.Json.{bool, string, object, field, end}
use edgeclaw.Types.{ok, err}
use edgeclaw.Skills.{SkillRow}
use edgeclaw.Database.{Tables, load_skills}
use edgeclaw.Fixtures.{server, world, no_tables, tools_json-reads}
use edgeclaw.Handlers.Skills.{
  AddSkillRequest, add_skill, remove_skill, added_tools, put_skill, put_in_order, goes_before,
  without_skill, has_skill,
}
use edgeclaw.Handlers.Skills.Laws.{Offered, add_skill-Offered, remove_skill-Gone, other_name}

abbrev search : SkillRow
search = record {
  name = "search";
  url = "http://a";
  tools_json = "[]";
  added_at = pos 1;
  auth_header_name = none;
  auth_header_value = some "key";
  skill_context = none;
  session_id = none;
}

abbrev db : Tables
db = record no_tables {
  skills = ("ann", record search { name = "git" }) ∷ ("ann", search) ∷ ("bob", search) ∷ [];
}

abbrev body : AddSkillRequest
body = record {
  user_id = "ann";
  name = "search";
  url = "http://b";
  auth_header_name = none;
  auth_header_value = none;
}

-- The rows of a user are loaded by name.
by_name :
    load_skills "ann" (put_skill "ann" (record search { name = "mail" }) db)
    ≡ record search { name = "git" } ∷ record search { name = "mail" } ∷ search ∷ []
unfolding load_skills put_skill put_in_order goes_before without_skill has_skill
by_name = refl

-- The tools of a skill whose name begins alike are among the reply's.
alike :
    added_tools "git" (
      record { name = "github__issues"; description = ""; input_schema = string "" }
      ∷ record { name = "git__log"; description = ""; input_schema = string "" }
      ∷ [])
    ≡ string "github__issues" ∷ string "git__log" ∷ []
unfolding added_tools strip_prefix
alike = refl

add_skill-Offered_example : Offered server body (add_skill server body (record world { db = db }))
add_skill-Offered_example =
    add_skill-Offered server tools_json-reads body (record world { db = db })

remove_skill-Gone_example :
    (load_skills "ann" (remove_skill "git" "ann" db).1
      ≡ retain (other_name "git") (load_skills "ann" db))
    × ((other : String)
        → str_eq "ann" other ≡ false
        → load_skills other (remove_skill "git" "ann" db).1 ≡ load_skills other db)
    × ((remove_skill "git" "ann" db).0 ≡ (
        if any (λ row. str_eq row.name "git") (load_skills "ann" db)
        then ok (object (field "removed" (bool true) (field "name" (string "git") end)))
        else err (record { status = 404; error = "skill not found" })))
remove_skill-Gone_example = remove_skill-Gone "git" "ann" db
