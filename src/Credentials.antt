-- ===== src/Credentials.antt =====
-- crates/credential-store/src (store.rs, types.rs, refresh.rs): the table of encrypted credentials.
-- Statements on the table succeed.
pub mod Crypto
pub mod Loads
pub mod Stored
pub mod Refresh
pub mod Fixtures
mod Tests
use edgeclaw.Prelude.{
  ℕ, String, Option, none, some, Bool, true, false, not, ◌&&◌, List, [], ◌∷◌, ◌++◌, length, find,
  retain, filter_map, str_eq, ◌==◌, if◌then◌else◌,
}
use edgeclaw.Prelude.Int.{ℤ, pos, leb_ℤ, add_i64, sub_i64}
use edgeclaw.Types.{Result, ok, err, and_then, map_err}
use Crypto.{
  Bytes, CredentialStoreError, key_derivation, encryption, decryption, credential_invalid,
  service_account_error, not_found, Primitives, then_run, from_utf8, derive_key, encrypt, decrypt,
  generate_salt,
}

pub data CredentialType : Type 0 where
  oauth service_account : CredentialType

pub record ServiceAccountMetadata : Type 0 where
  pub client_email : String
  pub token_uri : String

pub record Credential : Type 0 where
  pub access_token : Bytes
  pub refresh_token : Option Bytes
  pub user_id : String
  pub skill_name : String
  pub provider : String
  pub scopes : String
  pub expires_at : Option ℤ
  pub credential_type : CredentialType
  pub metadata : Option ServiceAccountMetadata

pub record CredentialRow : Type 0 where
  pub user_id : String
  pub skill_name : String
  pub provider : String
  pub access_token_enc : Bytes
  pub refresh_token_enc : Option Bytes
  pub expires_at : Option ℤ
  pub scopes : String
  pub user_salt : Bytes
  pub created_at : ℤ
  pub updated_at : ℤ
  pub credential_type : String
  pub metadata_enc : Option Bytes

pub record CredentialSummary : Type 0 where
  pub skill_name : String
  pub provider : String
  pub scopes : String
  pub expires_at : Option ℤ
  pub credential_type : String

pub record TokenResponse : Type 0 where
  pub access_token : Bytes
  pub refresh_token : Option Bytes
  pub expires_in : Option ℤ

-- refresh.rs, `is_expired`.
unfoldable pub is_expired : Option ℤ → ℤ → Bool
is_expired none now = false
is_expired (some exp) now = leb_ℤ (sub_i64 exp (pos 60)) now

-- The primary key of the table.
pub record Key : Type 0 where
  pub user_id : String
  pub skill_name : String
  pub provider : String

unfoldable pub has_key : Key → CredentialRow → Bool
has_key k row =
    str_eq row.user_id k.user_id
    && str_eq row.skill_name k.skill_name
    && str_eq row.provider k.provider

-- What is outside: the primitives, the clock (`unix_now`), serde_json on the metadata, and the trait
-- `TokenRefresher`.
pub record Outside (W : Type 0) : Type 0 where
  pub prim : Primitives W
  pub clock : W → ℤ
  pub write_metadata : ServiceAccountMetadata → Result Bytes String
  pub read_metadata : Bytes → Result ServiceAccountMetadata String
  pub refresh_token : String → Bytes → W → Result TokenResponse CredentialStoreError × W
  pub mint_token :
      Bytes → String → String → String → W → Result TokenResponse CredentialStoreError × W

-- The rows, and the outside state.
pub record State (W : Type 0) : Type 0 where
  pub rows : List CredentialRow
  pub outside : W

abbrev pub Done : Type 0 → Type 0 → Type 0
Done W A = Result A CredentialStoreError × State W

-- INSERT OR REPLACE, by the primary key.
unfoldable pub replace_row : Key → CredentialRow → List CredentialRow → List CredentialRow
unfolding has_key
replace_row k row rows = retain (λ r. not (has_key k r)) rows ++ row ∷ []

-- What is stored of the texts of a credential: the salt, and the texts encrypted.
pub record Sealed : Type 0 where
  pub salt : Bytes
  pub access_token_enc : Bytes
  pub refresh_token_enc : Option Bytes
  pub metadata_enc : Option Bytes

abbrev pub type_of : String → CredentialType
type_of s = if str_eq s "service_account" then service_account else oauth

module _ {W : Type 0} (out : Outside W) where
  unfoldable pub encrypt_optional :
      Bytes → Option Bytes → W → Result (Option Bytes) CredentialStoreError × W
  unfolding encrypt
  encrypt_optional key none w = (ok none, w)
  encrypt_optional key (some text) w =
      then_run (encrypt out.prim key text w) (λ blob w'. (ok (some blob), w'))

  unfoldable pub decrypt_text : Bytes → Bytes → Result Bytes CredentialStoreError
  unfolding decrypt from_utf8
  decrypt_text key blob = and_then (decrypt out.prim key blob) from_utf8

  unfoldable pub decrypt_optional :
      Bytes → Option Bytes → Result (Option Bytes) CredentialStoreError
  unfolding decrypt_text
  decrypt_optional key none = ok none
  decrypt_optional key (some blob) = and_then (decrypt_text key blob) (λ text. ok (some text))

  unfoldable pub decrypt_metadata :
      Bytes → Option Bytes → Result (Option ServiceAccountMetadata) CredentialStoreError
  unfolding decrypt
  decrypt_metadata key none = ok none
  decrypt_metadata key (some blob) =
      and_then (decrypt out.prim key blob)
        (λ bytes. and_then (map_err decryption (out.read_metadata bytes)) (λ meta. ok (some meta)))

  module _ (master_key : Bytes) where
    -- With the key of the row.
    unfoldable pub decrypt_with : CredentialRow → Bytes → Result Credential CredentialStoreError
    unfolding decrypt_text decrypt_optional decrypt_metadata
    decrypt_with row key = and_then (decrypt_text key row.access_token_enc) (λ access_token.
        and_then (decrypt_optional key row.refresh_token_enc) (λ refresh_token.
          and_then (decrypt_metadata key row.metadata_enc) (λ metadata. ok (record {
            access_token = access_token;
            refresh_token = refresh_token;
            user_id = row.user_id;
            skill_name = row.skill_name;
            provider = row.provider;
            scopes = row.scopes;
            expires_at = row.expires_at;
            credential_type = type_of row.credential_type;
            metadata = metadata;
          }))))

    unfoldable pub decrypt_row : CredentialRow → Result Credential CredentialStoreError
    unfolding derive_key decrypt_with
    decrypt_row row =
        if length row.user_salt == 32
        then and_then (derive_key out.prim master_key row.user_salt row.provider) (decrypt_with row)
        else err (decryption "invalid salt length")

    -- The texts of an OAuth credential, and those of a service account.
    unfoldable pub seal_oauth :
        String → Bytes → Option Bytes → W → Result Sealed CredentialStoreError × W
    unfolding generate_salt derive_key encrypt_optional
    seal_oauth provider access_token refresh_token w =
        let (salt, w1) = generate_salt out.prim w in
        then_run (derive_key out.prim master_key salt provider, w1)
          (λ key w2. then_run (encrypt out.prim key access_token w2) (λ access_token_enc w3.
            then_run (encrypt_optional key refresh_token w3) (λ refresh_token_enc w4. (
              ok (record {
                salt = salt;
                access_token_enc = access_token_enc;
                refresh_token_enc = refresh_token_enc;
                metadata_enc = none;
              }),
              w4,
            ))))

    unfoldable pub seal_service_account :
        String → Bytes → ServiceAccountMetadata → W → Result Sealed CredentialStoreError × W
    unfolding generate_salt derive_key encrypt
    seal_service_account provider private_key metadata w =
        let (salt, w1) = generate_salt out.prim w in
        then_run (derive_key out.prim master_key salt provider, w1)
          (λ key w2. then_run (encrypt out.prim key private_key w2) (λ access_token_enc w3.
            then_run (map_err encryption (out.write_metadata metadata), w3)
              (λ json w4. then_run (encrypt out.prim key json w4) (λ metadata_enc w5. (
                ok (record {
                  salt = salt;
                  access_token_enc = access_token_enc;
                  refresh_token_enc = none;
                  metadata_enc = some metadata_enc;
                }),
                w5,
              )))))

    module _ (k : Key) where
      unfoldable pub sealed_row : Option ℤ → String → String → ℤ → Sealed → CredentialRow
      sealed_row expires_at scopes credential_type now sealed = record {
        user_id = k.user_id;
        skill_name = k.skill_name;
        provider = k.provider;
        access_token_enc = sealed.access_token_enc;
        refresh_token_enc = sealed.refresh_token_enc;
        expires_at = expires_at;
        scopes = scopes;
        user_salt = sealed.salt;
        created_at = now;
        updated_at = now;
        credential_type = credential_type;
        metadata_enc = sealed.metadata_enc;
      }

      -- The row is written when everything is sealed.
      unfoldable pub write_sealed :
          Option ℤ
          → String
          → String
          → List CredentialRow
          → Result Sealed CredentialStoreError × W
          → Done W Unit
      unfolding sealed_row replace_row
      write_sealed expires_at scopes credential_type rows (err e, w) =
          (err e, record { rows = rows; outside = w })
      write_sealed expires_at scopes credential_type rows (ok sealed, w) = (
        ok tt,
        record {
          rows =
              replace_row k (sealed_row expires_at scopes credential_type (out.clock w) sealed)
                rows;
          outside = w;
        },
      )

      unfoldable pub store : Bytes → Option Bytes → Option ℤ → String → State W → Done W Unit
      unfolding write_sealed seal_oauth
      store access_token refresh_token expires_at scopes s =
          write_sealed expires_at scopes "oauth" s.rows
            (seal_oauth k.provider access_token refresh_token s.outside)

      unfoldable pub store_service_account :
          Bytes → ServiceAccountMetadata → String → State W → Done W Unit
      unfolding write_sealed seal_service_account
      store_service_account private_key metadata scopes s =
          write_sealed none scopes "service_account" s.rows
            (seal_service_account k.provider private_key metadata s.outside)

      unfoldable pub load : List CredentialRow → Result Credential CredentialStoreError
      unfolding has_key decrypt_row
      load rows = elim (find (has_key k) rows) [ none ↦ err not_found | some row ↦ decrypt_row row ]

-- DELETE by the primary key.
unfoldable pub delete : Key → List CredentialRow → List CredentialRow
unfolding has_key
delete k rows = retain (λ r. not (has_key k r)) rows

unfoldable pub summary_of : String → CredentialRow → Option CredentialSummary
summary_of user_id row =
    if str_eq row.user_id user_id
    then some (record {
      skill_name = row.skill_name;
      provider = row.provider;
      scopes = row.scopes;
      expires_at = row.expires_at;
      credential_type = row.credential_type;
    })
    else none

unfoldable pub list : String → List CredentialRow → List CredentialSummary
unfolding summary_of
list user_id rows = filter_map (summary_of user_id) rows
