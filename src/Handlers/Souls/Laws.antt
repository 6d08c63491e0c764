-- ===== src/Handlers/Souls/Laws.antt =====
-- What a soul's handlers store is what is shown, and what the turns of its user use.
use edgeclaw.Prelude.{
  String, ◌≡◌, refl, ap, ◌∙◌, none, some, true, false, str_eq, str_eq_refl, arith,
}
use edgeclaw.Prelude.Int.{ℤ}
use edgeclaw.Types.{Result, ok, err}
use edgeclaw.Soul.{Soul, default}
use edgeclaw.Database.{Tables, soul_of_row, ensure_user, load_soul}
use edgeclaw.Handlers.{Failure, Reply}
use edgeclaw.Handlers.Souls.{
  CreateSoulRequest, PatchSoulRequest, soul_to_json, stored_soul, get_soul, row_of_soul,
  replace_soul, upsert_soul, soul_of_request, create_soul, patched, patch_soul,
}
use edgeclaw.Handlers.Souls.Rows.{
  soul_of_row-row_of_soul, find_soul, find_soul-last, find_soul-others, find_soul-upsert,
  find_soul-upsert-others, ensure_user-souls,
}

-- A refusal leaves the souls. A reply is a soul's JSON, which is what is shown from then on and what the
-- user's turns use; every other user is shown the same as before.
abbrev pub Shown : String → Tables → Reply × Tables → Type 0
Shown user_id db (err e, db') = db'.souls ≡ db.souls
Shown user_id db (ok v, db') =
    (soul : Soul) × (v ≡ soul_to_json soul)
    × (load_soul user_id db' ≡ soul)
    × (get_soul user_id db' ≡ ok v)
    × ((other : String) → str_eq user_id other ≡ false → get_soul other db' ≡ get_soul other db)

stored-Shown :
    (user_id : String) (soul : Soul) (created now : ℤ) (db db' : Tables)
    → find_soul user_id db'.souls ≡ some (row_of_soul user_id soul created now)
    → ((other : String)
        → str_eq user_id other ≡ false
        → find_soul other db'.souls ≡ find_soul other db.souls)
    → Shown user_id db (ok (soul_to_json soul), db')
unfolding get_soul stored_soul load_soul
stored-Shown user_id soul created now db db' h others = (
  soul,
  refl,
  by_row h ∙ soul_of_row-row_of_soul user_id soul created now,
  ap (λ s. ok (soul_to_json s)) (shown h ∙ soul_of_row-row_of_soul user_id soul created now),
  λ other d.
      ap (λ o. ok (soul_to_json (elim o [ none ↦ default | some row ↦ soul_of_row row ])))
        (others other d),
)
  where
    shown :
        find_soul user_id db'.souls ≡ some (row_of_soul user_id soul created now)
        → stored_soul user_id db' ≡ soul_of_row (row_of_soul user_id soul created now)
    shown h = ap (λ o. elim o [ none ↦ default | some row ↦ soul_of_row row ]) h

    by_row :
        find_soul user_id db'.souls ≡ some (row_of_soul user_id soul created now)
        → load_soul user_id db' ≡ soul_of_row (row_of_soul user_id soul created now)
    by_row h = ground (arith, h)

pub replaced-Shown :
    (user_id : String) (soul : Soul) (now : ℤ) (db db1 : Tables)
    → db1.souls ≡ db.souls
    → Shown user_id db (ok (soul_to_json soul), replace_soul user_id soul now db1)
replaced-Shown user_id soul now db db1 same =
    stored-Shown user_id soul now now db _
      (unfold replace_soul in
        find_soul-last user_id (row_of_soul user_id soul now now) _
          (row_user (str_eq_refl user_id)))
      (λ other d.
        unfold replace_soul in
        (find_soul-others user_id other (row_of_soul user_id soul now now) _ d (row_other other d)
          ∙ ap (find_soul other) same))
  where
    row_user :
        str_eq user_id user_id ≡ true
        → str_eq (row_of_soul user_id soul now now).user_id user_id ≡ true
    row_user e = unfold row_of_soul in e

    row_other :
        (other : String)
        → str_eq user_id other ≡ false
        → str_eq (row_of_soul user_id soul now now).user_id other ≡ false
    row_other other d = unfold row_of_soul in d

upsert_soul-Shown :
    (user_id : String) (soul : Soul) (registered now : ℤ) (db : Tables)
    → let db1 = ensure_user user_id registered db in
      Shown user_id db
        (ok (soul_to_json soul), record db1 { souls = upsert_soul user_id soul now db1.souls })
upsert_soul-Shown user_id soul registered now db =
    let db1 : Tables = ensure_user user_id registered db in
    let (created, h) = find_soul-upsert user_id soul now db1.souls in
    stored-Shown user_id soul created now db _ h (λ other d.
      find_soul-upsert-others user_id other soul now db1.souls d
      ∙ ap (find_soul other) (ensure_user-souls user_id registered db))

create_soul-Shown :
    (body : CreateSoulRequest) (registered now : ℤ) (db : Tables)
    → Shown body.user_id db (create_soul body registered now db)
unfolding create_soul
create_soul-Shown body registered now db = by_request (soul_of_request body)
  where
    by_request :
        (r : Result Soul Failure)
        → Shown body.user_id db (elim r [
          | err e ↦ (err e, db)
          | ok soul ↦ (
            ok (soul_to_json soul),
            replace_soul body.user_id soul now (ensure_user body.user_id registered db),
          )
        ])
    by_request (err e) = refl
    by_request (ok soul) =
        replaced-Shown body.user_id soul now db (ensure_user body.user_id registered db)
          (ensure_user-souls body.user_id registered db)

patch_soul-Shown :
    (body : PatchSoulRequest) (registered now : ℤ) (db : Tables)
    → Shown body.user_id db (patch_soul body registered now db)
unfolding patch_soul
patch_soul-Shown body registered now db =
    by_patch (patched body (stored_soul body.user_id (ensure_user body.user_id registered db)))
  where
    by_patch :
        (r : Result Soul Failure)
        → Shown body.user_id db (elim r [
          | err e ↦ (err e, ensure_user body.user_id registered db)
          | ok soul ↦ (
            ok (soul_to_json soul),
            record (ensure_user body.user_id registered db) {
              souls =
                  upsert_soul body.user_id soul now (ensure_user body.user_id registered db).souls;
            },
          )
        ])
    by_patch (err e) = ensure_user-souls body.user_id registered db
    by_patch (ok soul) = upsert_soul-Shown body.user_id soul registered now db

-- What the handlers that create and that patch a soul reply is the JSON of a soul, which the handler that shows it then
-- gives, and which the turns of its user use; other users' souls are shown as before. A request that is refused leaves
-- all souls as they were.
pub create_patch_soul-Shown :
    (create : CreateSoulRequest) (patch : PatchSoulRequest) (registered now : ℤ) (db : Tables)
    → Shown create.user_id db (create_soul create registered now db)
      × Shown patch.user_id db (patch_soul patch registered now db)
create_patch_soul-Shown create patch registered now db =
    (create_soul-Shown create registered now db, patch_soul-Shown patch registered now db)
