-- ===== src/Handlers/Souls.antt =====
-- crates/edgeclaw-server/src/handlers.rs: the handlers of souls. What is stored of a soul is the texts of
-- its traits. `registered` and `now` are the two readings of the clock.
pub mod Generate
pub mod Rows
pub mod Laws
pub mod Served
mod Tests
use edgeclaw.Prelude.{
  String, Option, none, some, Bool, true, false, not, List, [], ◌∷◌, ◌++◌, find, retain, filter_map,
  str_eq, if◌then◌else◌, unwrap_or, any,
}
use edgeclaw.Prelude.Int.{ℤ, pos}
use edgeclaw.Prelude.Text.{◌<>◌, trim, strip_prefix, strip_suffix, join}
use edgeclaw.Json.{Value, string, object, end, field, get, as_str, get_str}
use edgeclaw.Types.{
  Result, ok, err, and_then, map_err, AgentError, display_error, Message, user, ContentBlock, text,
  as_text,
}
use edgeclaw.Soul
use edgeclaw.Soul.{Soul, parsed_or, field_or}
use edgeclaw.Soul.Archetype
use edgeclaw.Soul.Tone
use edgeclaw.Soul.Verbosity
use edgeclaw.Soul.DecisionStyle
use edgeclaw.Host.{Host, LlmResponse}
use edgeclaw.Llm.{LlmConfig, send_message}
use edgeclaw.Database.{Tables, SoulRow, soul_of_row, ensure_user}
use edgeclaw.Turn.{ServerConfig}
use edgeclaw.Handlers.{Failure, Reply, bad_request, internal_error}

pub record CreateSoulRequest : Type 0 where
  pub user_id : String
  pub name : String
  pub personality : Option String
  pub archetype : Option String
  pub tone : Option String
  pub verbosity : Option String
  pub decision_style : Option String

pub record PatchSoulRequest : Type 0 where
  pub user_id : String
  pub name : Option String
  pub personality : Option String
  pub archetype : Option String
  pub tone : Option String
  pub verbosity : Option String
  pub decision_style : Option String

pub record GenerateSoulRequest : Type 0 where
  pub user_id : String
  pub description : String

unfoldable pub soul_to_json : Soul → Value
soul_to_json soul = object (
    field "name" (string soul.name) (
      field "personality" (string soul.personality) (
        field "archetype" (string (Archetype.display soul.archetype)) (
          field "tone" (string (Tone.display soul.tone)) (
            field "verbosity" (string (Verbosity.display soul.verbosity))
              (field "decision_style" (string (DecisionStyle.display soul.decision_style)) end))))))

abbrev pub soul_row : String → Tables → Option SoulRow
soul_row user_id db = find (λ r. str_eq r.user_id user_id) db.souls

-- The soul of the row, or the default one.
unfoldable pub stored_soul : String → Tables → Soul
unfolding soul_of_row
stored_soul user_id db = elim (soul_row user_id db) [
  | none ↦ Soul.default
  | some row ↦ soul_of_row row
]

-- `get_soul_handler`.
unfoldable pub get_soul : String → Tables → Reply
unfolding soul_to_json stored_soul
get_soul user_id db = ok (soul_to_json (stored_soul user_id db))

unfoldable pub row_of_soul : String → Soul → (created_at updated_at : ℤ) → SoulRow
row_of_soul user_id soul created_at updated_at = record {
  user_id = user_id;
  name = soul.name;
  personality = soul.personality;
  archetype = Archetype.display soul.archetype;
  tone = Tone.display soul.tone;
  verbosity = Verbosity.display soul.verbosity;
  decision_style = DecisionStyle.display soul.decision_style;
  created_at = created_at;
  updated_at = updated_at;
}

-- INSERT OR REPLACE INTO souls.
unfoldable pub replace_soul : String → Soul → ℤ → Tables → Tables
unfolding row_of_soul
replace_soul user_id soul now db = record db {
  souls =
      retain (λ r. not (str_eq r.user_id user_id)) db.souls
      ++ row_of_soul user_id soul now now ∷ [];
}

-- INSERT … ON CONFLICT(user_id) DO UPDATE, which keeps `created_at`.
unfoldable pub upsert_soul : String → Soul → ℤ → List SoulRow → List SoulRow
unfolding row_of_soul
upsert_soul user_id soul now [] = row_of_soul user_id soul now now ∷ []
upsert_soul user_id soul now (row ∷ rows) =
    let rest = upsert_soul user_id soul now rows in
    if str_eq row.user_id user_id
    then row_of_soul user_id soul row.created_at now ∷ rows
    else row ∷ rest

-- `.parse().map_err(bad_request)?`.
abbrev pub checked : {A : Type 0} → (String → Result A String) → String → Result A Failure
checked parse s = map_err bad_request (parse s)

-- The traits of the request, or those that it leaves out.
unfoldable pub soul_of_request : CreateSoulRequest → Result Soul Failure
unfolding bad_request
soul_of_request body =
    and_then (checked Archetype.from_str (unwrap_or body.archetype "assistant")) (λ archetype.
      and_then (checked Tone.from_str (unwrap_or body.tone "neutral")) (λ tone.
        and_then (checked Verbosity.from_str (unwrap_or body.verbosity "balanced")) (λ verbosity.
          and_then (checked DecisionStyle.from_str (unwrap_or body.decision_style "balanced"))
            (λ decision_style. ok (record {
              name = body.name;
              personality = unwrap_or body.personality "";
              archetype = archetype;
              tone = tone;
              verbosity = verbosity;
              decision_style = decision_style;
            })))))

-- `create_soul_handler`.
unfoldable pub create_soul : CreateSoulRequest → (registered now : ℤ) → Tables → Reply × Tables
unfolding soul_of_request replace_soul soul_to_json ensure_user
create_soul body registered now db = elim (soul_of_request body) [
  | err e ↦ (err e, db)
  | ok soul ↦ (
    ok (soul_to_json soul),
    replace_soul body.user_id soul now (ensure_user body.user_id registered db),
  )
]

-- A trait that the patch has, or else the one that there was.
unfoldable pub patch_trait :
    {A : Type 0} → (String → Result A String) → Option String → A → Result A Failure
unfolding bad_request
patch_trait parse none a = ok a
patch_trait parse (some s) a = checked parse s

unfoldable pub patched : PatchSoulRequest → Soul → Result Soul Failure
unfolding patch_trait
patched body soul =
    and_then (patch_trait Archetype.from_str body.archetype soul.archetype) (λ archetype.
      and_then (patch_trait Tone.from_str body.tone soul.tone) (λ tone.
        and_then (patch_trait Verbosity.from_str body.verbosity soul.verbosity) (λ verbosity.
          and_then (patch_trait DecisionStyle.from_str body.decision_style soul.decision_style)
            (λ decision_style. ok (record {
              name = unwrap_or body.name soul.name;
              personality = unwrap_or body.personality soul.personality;
              archetype = archetype;
              tone = tone;
              verbosity = verbosity;
              decision_style = decision_style;
            })))))

-- `patch_soul_handler`, whose user is there also behind a patch that is refused.
unfoldable pub patch_soul : PatchSoulRequest → (registered now : ℤ) → Tables → Reply × Tables
unfolding patched stored_soul upsert_soul soul_to_json ensure_user
patch_soul body registered now db =
    let db1 = ensure_user body.user_id registered db in
    elim (patched body (stored_soul body.user_id db1)) [
      | err e ↦ (err e, db1)
      | ok soul ↦ (
        ok (soul_to_json soul),
        record db1 { souls = upsert_soul body.user_id soul now db1.souls },
      )
    ]
