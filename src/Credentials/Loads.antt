-- ===== src/Credentials/Loads.antt =====
-- The table of credentials: replaced, deleted and other rows.
use edgeclaw.Prelude.{
  String, ◌≡◌, refl, ap, Option, none, some, true, false, Bool-cases, ◌&&◌, List, [], ◌∷◌, find,
  str_eq, str_eq_refl, eq_iff, arith, inl, inr,
}
use edgeclaw.Prelude.Int.{ℤ}
use edgeclaw.Types.{Result, ok, err}
use edgeclaw.Credentials.Crypto.{Bytes, CredentialStoreError, not_found}
use edgeclaw.Credentials.{
  Key, CredentialRow, Outside, State, Sealed, has_key, replace_row, decrypt_row, seal_oauth,
  sealed_row, write_sealed, store, load, delete,
}

-- The keys are of different credentials.
abbrev pub Differ : Key → Key → Type 0
Differ k other =
    (str_eq k.user_id other.user_id
      && str_eq k.skill_name other.skill_name
      && str_eq k.provider other.provider)
    ≡ false

has_key-clash :
    (k other : Key) (row : CredentialRow)
    → Differ k other
    → has_key k row ≡ true
    → has_key other row ≡ false
unfolding has_key
has_key-clash k other row d h = ground (
  arith,
  eq_iff row.user_id k.user_id,
  eq_iff row.skill_name k.skill_name,
  eq_iff row.provider k.provider,
  eq_iff k.user_id other.user_id,
  eq_iff k.skill_name other.skill_name,
  eq_iff k.provider other.provider,
  eq_iff row.user_id other.user_id,
  eq_iff row.skill_name other.skill_name,
  eq_iff row.provider other.provider,
)

pub find-replaced :
    (k : Key) (row : CredentialRow) (rows : List CredentialRow)
    → has_key k row ≡ true
    → find (has_key k) (replace_row k row rows) ≡ some row
unfolding replace_row
find-replaced k row [] h = rw h refl
find-replaced k row (r ∷ rows) h = elim (Bool-cases (has_key k r)) [
  | inl e ↦ rw e (find-replaced k row rows h)
  | inr e ↦ rw e (ground (arith, find-replaced k row rows h))
]

find-others :
    (k other : Key) (rows : List CredentialRow)
    → Differ k other
    → find (has_key other) (delete k rows) ≡ find (has_key other) rows
unfolding delete
find-others k other [] d = refl
find-others k other (r ∷ rows) d = elim (Bool-cases (has_key k r)) [
  | inl e ↦ rw (e, has_key-clash k other r d e) (find-others k other rows d)
  | inr e ↦ rw e (ground (arith, find-others k other rows d))
]

find-replaced-other :
    (k other : Key) (row : CredentialRow) (rows : List CredentialRow)
    → Differ k other
    → has_key k row ≡ true
    → find (has_key other) (replace_row k row rows) ≡ find (has_key other) rows
unfolding replace_row
find-replaced-other k other row [] d h = rw (has_key-clash k other row d h) refl
find-replaced-other k other row (r ∷ rows) d h = elim (Bool-cases (has_key k r)) [
  | inl e ↦ rw (e, has_key-clash k other r d e) (find-replaced-other k other row rows d h)
  | inr e ↦ rw e (ground (arith, find-replaced-other k other row rows d h))
]

find-deleted : (k : Key) (rows : List CredentialRow) → find (has_key k) (delete k rows) ≡ none
unfolding delete
find-deleted k [] = refl
find-deleted k (r ∷ rows) = elim (Bool-cases (has_key k r)) [
  | inl e ↦ rw e (find-deleted k rows)
  | inr e ↦ rw e (ground (arith, find-deleted k rows))
]

module _ {W : Type 0} (out : Outside W) (master_key : Bytes) where
  pub own_row :
      (k : Key) (expires_at : Option ℤ) (scopes credential_type : String) (now : ℤ)
      (sealed : Sealed)
      → has_key k (sealed_row out master_key k expires_at scopes credential_type now sealed) ≡ true
  unfolding has_key sealed_row
  own_row k expires_at scopes credential_type now sealed =
      rw (str_eq_refl k.user_id, str_eq_refl k.skill_name, str_eq_refl k.provider) refl

  load-rows :
      (k : Key) (rows rows' : List CredentialRow)
      → find (has_key k) rows ≡ find (has_key k) rows'
      → load out master_key k rows ≡ load out master_key k rows'
  unfolding load
  load-rows k rows rows' e =
      ap (λ o. elim o [ none ↦ err not_found | some row ↦ decrypt_row out master_key row ]) e

  write_sealed-others :
      (k other : Key) (expires_at : Option ℤ) (scopes credential_type : String)
      (rows : List CredentialRow) (r : Result Sealed CredentialStoreError × W)
      → Differ k other
      → load out master_key other
          (write_sealed out master_key k expires_at scopes credential_type rows r).1.rows
        ≡ load out master_key other rows
  unfolding write_sealed
  write_sealed-others k other expires_at scopes credential_type rows (err e, w) d = refl
  write_sealed-others k other expires_at scopes credential_type rows (ok sealed, w) d =
      load-rows other _ rows (
        find-replaced-other k other _ rows d
          (own_row k expires_at scopes credential_type (out.clock w) sealed))

  -- Storing or deleting a credential, also where the storing fails, leaves what loads of any other give:
  -- those of other users, skills and providers.
  pub store-delete-others :
      (k other : Key) (access_token : Bytes) (refresh_token : Option Bytes) (expires_at : Option ℤ)
      (scopes : String) (s : State W)
      → Differ k other
      → (load out master_key other
            (store out master_key k access_token refresh_token expires_at scopes s).1.rows
          ≡ load out master_key other s.rows)
        × (load out master_key other (delete k s.rows) ≡ load out master_key other s.rows)
  unfolding store
  store-delete-others k other access_token refresh_token expires_at scopes s d = (
    write_sealed-others k other expires_at scopes "oauth" s.rows
        (seal_oauth out master_key k.provider access_token refresh_token s.outside) d,
    load-rows other _ s.rows (find-others k other s.rows d),
  )

  -- A credential that is deleted is not found.
  pub load-delete :
      (k : Key) (rows : List CredentialRow) → load out master_key k (delete k rows) ≡ err not_found
  unfolding load
  load-delete k rows =
      ap (λ o. elim o [ none ↦ err not_found | some row ↦ decrypt_row out master_key row ])
        (find-deleted k rows)
