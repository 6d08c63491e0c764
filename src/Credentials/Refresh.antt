-- ===== src/Credentials/Refresh.antt =====
-- crates/credential-store/src/store.rs, `load_and_refresh`.
pub mod Laws
use edgeclaw.Prelude.{String, Option, none, some, Bool, true, false, List, [], ◌∷◌, find, str_eq}
use edgeclaw.Prelude.Int.{ℤ, add_i64}
use edgeclaw.Types.{Result, ok, err, and_then}
use edgeclaw.Credentials.Crypto.{
  Bytes, CredentialStoreError, credential_invalid, service_account_error, not_found, then_run,
}
use edgeclaw.Credentials.{
  Key, CredentialRow, Credential, service_account, ServiceAccountMetadata, TokenResponse, Outside,
  State, Done, has_key, is_expired, decrypt_row, store, load,
}

-- `expires_in.map(|ei| now + ei)`.
abbrev pub expiry : ℤ → Option ℤ → Option ℤ
expiry now none = none
expiry now (some expires_in) = some (add_i64 now expires_in)

-- `a.or(b)`.
abbrev pub or_else : {A : Type 0} → Option A → Option A → Option A
or_else none b = b
or_else (some a) b = some a

module _ {W : Type 0} (out : Outside W) (master_key : Bytes) (k : Key) where
  abbrev pub minted : CredentialRow → Credential → ℤ → TokenResponse → Credential
  minted row cred now token = record {
    access_token = token.access_token;
    refresh_token = none;
    user_id = row.user_id;
    skill_name = row.skill_name;
    provider = row.provider;
    scopes = row.scopes;
    expires_at = expiry now token.expires_in;
    credential_type = service_account;
    metadata = cred.metadata;
  }

  -- A service account: the stored text is the private key, and a token is minted each time.
  unfoldable pub mint_with :
      CredentialRow → Credential → ℤ → Option ServiceAccountMetadata → State W → Done W Credential
  mint_with row cred now none s =
      (err (service_account_error "service account credential missing metadata"), s)
  mint_with row cred now (some meta) s =
      let (r, w) =
        out.mint_token cred.access_token meta.client_email meta.token_uri cred.scopes s.outside in
      (and_then r (λ token. ok (minted row cred now token)), record s { outside = w })

  unfoldable pub mint : CredentialRow → ℤ → State W → Done W Credential
  unfolding decrypt_row mint_with
  mint row now s = elim (decrypt_row out master_key row) [
    | err e ↦ (err e, s)
    | ok cred ↦ mint_with row cred now cred.metadata s
  ]

  -- The new tokens are stored, with the old refresh token if there is no new one, and loaded.
  unfoldable pub store_refreshed :
      CredentialRow
      → Bytes
      → ℤ
      → List CredentialRow
      → Result TokenResponse CredentialStoreError × W
      → Done W Credential
  unfolding store load
  store_refreshed row rt now rows (err e, w) = (err e, record { rows = rows; outside = w })
  store_refreshed row rt now rows (ok token, w) =
      let (r, s) =
        store out master_key k token.access_token (or_else token.refresh_token (some rt))
          (expiry now token.expires_in) row.scopes (record { rows = rows; outside = w }) in
      (and_then r (λ u. load out master_key k s.rows), s)

  unfoldable pub refresh_with : CredentialRow → ℤ → Option Bytes → State W → Done W Credential
  unfolding store_refreshed
  refresh_with row now none s =
      (err (credential_invalid "token expired but no refresh token available"), s)
  refresh_with row now (some rt) s =
      store_refreshed row rt now s.rows (out.refresh_token k.provider rt s.outside)

  unfoldable pub refresh : CredentialRow → ℤ → State W → Done W Credential
  unfolding decrypt_row refresh_with
  refresh row now s = elim (decrypt_row out master_key row) [
    | err e ↦ (err e, s)
    | ok cred ↦ refresh_with row now cred.refresh_token s
  ]

  unfoldable pub use_row : CredentialRow → State W → Done W Credential
  unfolding mint refresh is_expired
  use_row row s =
      let now = out.clock s.outside in
      elim (str_eq row.credential_type "service_account") [
        | true ↦ mint row now s
        | false ↦ elim (is_expired row.expires_at now) [
          | false ↦ (decrypt_row out master_key row, s)
          | true ↦ refresh row now s
        ]
      ]

  unfoldable pub load_and_refresh : State W → Done W Credential
  unfolding use_row has_key
  load_and_refresh s = elim (find (has_key k) s.rows) [
    | none ↦ (err not_found, s)
    | some row ↦ use_row row s
  ]
