-- ===== src/Handlers/Souls/Rows.antt =====
-- The row of a user's soul, as it is replaced and updated.
use edgeclaw.Prelude.{
  String, ◌≡◌, refl, Option, some, true, false, Bool-cases, not, List, [], ◌∷◌, ◌++◌, find, retain,
  str_eq, str_eq_refl, eq_iff, arith, inl, inr,
}
use edgeclaw.Prelude.Int.{ℤ}
use edgeclaw.Soul.{Soul}
use edgeclaw.Soul.Archetype
use edgeclaw.Soul.Tone
use edgeclaw.Soul.Verbosity
use edgeclaw.Soul.DecisionStyle
use edgeclaw.Database.{Tables, SoulRow, soul_of_row, ensure_user}
use edgeclaw.Handlers.Souls.{row_of_soul, upsert_soul}

-- A row is read as the soul it was made of.
pub soul_of_row-row_of_soul :
    (user_id : String) (soul : Soul) (created now : ℤ)
    → soul_of_row (row_of_soul user_id soul created now) ≡ soul
unfolding soul_of_row row_of_soul
soul_of_row-row_of_soul user_id soul created now =
    rw
      (
        Archetype.from_str-display soul.archetype,
        Tone.from_str-display soul.tone,
        Verbosity.from_str-display soul.verbosity,
        DecisionStyle.from_str-display soul.decision_style,
      )
      refl

abbrev pub find_soul : String → List SoulRow → Option SoulRow
find_soul user_id rows = find (λ r. str_eq r.user_id user_id) rows

pub find_soul-last :
    (user_id : String) (row : SoulRow) (rows : List SoulRow)
    → str_eq row.user_id user_id ≡ true
    → find_soul user_id (retain (λ r. not (str_eq r.user_id user_id)) rows ++ row ∷ []) ≡ some row
find_soul-last user_id row [] e = rw e refl
find_soul-last user_id row (r ∷ rows) e = ground (arith, find_soul-last user_id row rows e)

pub find_soul-others :
    (user_id other : String) (row : SoulRow) (rows : List SoulRow)
    → str_eq user_id other ≡ false
    → str_eq row.user_id other ≡ false
    → find_soul other (retain (λ r. not (str_eq r.user_id user_id)) rows ++ row ∷ [])
      ≡ find_soul other rows
find_soul-others user_id other row [] d e = rw e refl
find_soul-others user_id other row (r ∷ rows) d e = ground (
  arith,
  eq_iff r.user_id user_id,
  eq_iff r.user_id other,
  eq_iff user_id other,
  find_soul-others user_id other row rows d e,
)

pub find_soul-upsert :
    (user_id : String) (soul : Soul) (now : ℤ) (rows : List SoulRow)
    → (created : ℤ) × (find_soul user_id (upsert_soul user_id soul now rows)
        ≡ some (row_of_soul user_id soul created now))
unfolding upsert_soul row_of_soul
find_soul-upsert user_id soul now [] = (now, rw (str_eq_refl user_id) refl)
find_soul-upsert user_id soul now (r ∷ rows) = elim (Bool-cases (str_eq r.user_id user_id)) [
  | inl e ↦ (r.created_at, rw (e, str_eq_refl user_id) refl)
  | inr e ↦ let (created, h) = find_soul-upsert user_id soul now rows in (created, rw (e, e) h)
]

pub find_soul-upsert-others :
    (user_id other : String) (soul : Soul) (now : ℤ) (rows : List SoulRow)
    → str_eq user_id other ≡ false
    → find_soul other (upsert_soul user_id soul now rows) ≡ find_soul other rows
unfolding upsert_soul row_of_soul
find_soul-upsert-others user_id other soul now [] d = rw d refl
find_soul-upsert-others user_id other soul now (r ∷ rows) d = ground (
  arith,
  eq_iff r.user_id user_id,
  eq_iff r.user_id other,
  eq_iff user_id other,
  find_soul-upsert-others user_id other soul now rows d,
)

pub ensure_user-souls :
    (user_id : String) (now : ℤ) (db : Tables) → (ensure_user user_id now db).souls ≡ db.souls
unfolding ensure_user
ensure_user-souls user_id now db = ground arith
