-- ===== src/Credentials/Stored.antt =====
-- A credential that is stored and loaded again.
use edgeclaw.Prelude.{String, ◌≡◌, refl, ap, ◌∙◌, Option, none, some, true, List, length}
use edgeclaw.Prelude.Int.{ℤ}
use edgeclaw.Types.{Result, ok, err}
use edgeclaw.Credentials.Crypto.{
  Bytes, CredentialStoreError, not_found, utf8, from_utf8, derive_key, encrypt, decrypt, then_run,
  generate_salt,
}
use edgeclaw.Credentials.Crypto.RoundTrip.{Documented, Opens, encrypt-Opens}
use edgeclaw.Credentials.{
  Key, CredentialRow, Credential, oauth, Outside, State, Done, Sealed, encrypt_optional,
  decrypt_text, decrypt_optional, decrypt_metadata, decrypt_with, decrypt_row, seal_oauth,
  sealed_row, write_sealed, store, load,
}
use edgeclaw.Credentials.Loads.{find-replaced, own_row}

module _ {W : Type 0} (out : Outside W) (master_key : Bytes) where
  module _ (documented : Documented out.prim) where
    -- A text that is encrypted is read again, if it is UTF-8.
    decrypt_text-opens :
        (key text blob : Bytes)
        → utf8 text ≡ true
        → decrypt out.prim key blob ≡ ok text
        → decrypt_text out key blob ≡ ok text
    unfolding decrypt_text from_utf8
    decrypt_text-opens key text blob u e = rw (e, u) refl

    abbrev pub Utf8 : Option Bytes → Type 0
    Utf8 none = Unit {0}
    Utf8 (some text) = utf8 text ≡ true

    abbrev OpensOptional :
        Bytes → Option Bytes → Result (Option Bytes) CredentialStoreError × W → Type 0
    OpensOptional key text (ok blob, w) = decrypt_optional out key blob ≡ ok text
    OpensOptional key text (err e, w) = Unit {0}

    opened_some :
        (key text : Bytes) (r : Result Bytes CredentialStoreError × W)
        → utf8 text ≡ true
        → Opens out.prim documented key text r
        → OpensOptional key (some text) (then_run r (λ blob w'. (ok (some blob), w')))
    unfolding decrypt_optional
    opened_some key text (err e, w) u h = tt
    opened_some key text (ok blob, w) u h = rw (decrypt_text-opens key text blob u h) refl

    encrypt_optional-opens :
        (key : Bytes) (text : Option Bytes) (w : W)
        → Utf8 text
        → OpensOptional key text (encrypt_optional out key text w)
    unfolding encrypt_optional decrypt_optional
    encrypt_optional-opens key none w u = refl
    encrypt_optional-opens key (some text) w u =
        opened_some key text (encrypt out.prim key text w) u
          (encrypt-Opens out.prim documented key text w)

    module _ (provider : String) (access_token : Bytes) (refresh_token : Option Bytes)
        (utf8_access : utf8 access_token ≡ true) (utf8_refresh : Utf8 refresh_token) where
      -- What is sealed opens to the tokens.
      abbrev Seals : Result Sealed CredentialStoreError × W → Type 0
      Seals (err e, w) = Unit {0}
      Seals (ok sealed, w) =
          (key : Bytes) × (length sealed.salt ≡ 32)
          × (derive_key out.prim master_key sealed.salt provider ≡ ok key)
          × (decrypt_text out key sealed.access_token_enc ≡ ok access_token)
          × (decrypt_optional out key sealed.refresh_token_enc ≡ ok refresh_token)
          × (sealed.metadata_enc ≡ none)

      abbrev seal_rest :
          Bytes
          → Bytes
          → Bytes
          → Result (Option Bytes) CredentialStoreError × W
          → Result Sealed CredentialStoreError × W
      seal_rest salt key access_token_enc r = then_run r (λ refresh_token_enc w4. (
        ok (record {
          salt = salt;
          access_token_enc = access_token_enc;
          refresh_token_enc = refresh_token_enc;
          metadata_enc = none;
        }),
        w4,
      ))

      module _ (salt key : Bytes) (full : length salt ≡ 32)
          (derived : derive_key out.prim master_key salt provider ≡ ok key) where
        sealed_both :
            (access_token_enc : Bytes) (r : Result (Option Bytes) CredentialStoreError × W)
            → decrypt out.prim key access_token_enc ≡ ok access_token
            → OpensOptional key refresh_token r
            → Seals (seal_rest salt key access_token_enc r)
        sealed_both blob (err e, w) a h = tt
        sealed_both blob (ok refresh_blob, w) a h =
            (key, full, derived, decrypt_text-opens key access_token blob utf8_access a, h, refl)

        sealed_access :
            (r : Result Bytes CredentialStoreError × W)
            → Opens out.prim documented key access_token r
            → Seals (
                then_run r
                  (λ blob w3. seal_rest salt key blob (encrypt_optional out key refresh_token w3)))
        sealed_access (err e, w) h = tt
        sealed_access (ok blob, w) h =
            sealed_both blob (encrypt_optional out key refresh_token w) h
              (encrypt_optional-opens key refresh_token w utf8_refresh)

      sealed_key :
          (salt : Bytes) (w1 : W) (r : Result Bytes CredentialStoreError)
          → length salt ≡ 32
          → derive_key out.prim master_key salt provider ≡ r
          → Seals (
              then_run
                (r, w1)
                (λ key w2.
                  then_run (encrypt out.prim key access_token w2) (λ blob w3.
                    seal_rest salt key blob (encrypt_optional out key refresh_token w3))))
      sealed_key salt w1 (err e) full derived = tt
      sealed_key salt w1 (ok key) full derived =
          sealed_access salt key full derived (encrypt out.prim key access_token w1)
            (encrypt-Opens out.prim documented key access_token w1)

      seal_oauth-Seals :
          (w : W) → Seals (seal_oauth out master_key provider access_token refresh_token w)
      unfolding seal_oauth generate_salt
      seal_oauth-Seals w =
          let (salt, w1) = out.prim.random 32 w in
          sealed_key salt w1 (derive_key out.prim master_key salt provider) (documented.random 32 w)
            refl

    module _ (k : Key) (access_token : Bytes) (refresh_token : Option Bytes) (expires_at : Option ℤ)
        (scopes : String) where
      abbrev pub given : Credential
      given = record {
        access_token = access_token;
        refresh_token = refresh_token;
        user_id = k.user_id;
        skill_name = k.skill_name;
        provider = k.provider;
        scopes = scopes;
        expires_at = expires_at;
        credential_type = oauth;
        metadata = none;
      }

      decrypt_row-sealed :
          (u : utf8 access_token ≡ true) (v : Utf8 refresh_token) (now : ℤ) (sealed : Sealed)
          (w : W)
          → Seals k.provider access_token refresh_token u v (ok sealed, w)
          → decrypt_row out master_key
              (sealed_row out master_key k expires_at scopes "oauth" now sealed)
            ≡ ok given
      unfolding decrypt_row decrypt_with decrypt_metadata sealed_row
      decrypt_row-sealed u v now sealed w (key, full, derived, a, r, m) =
          rw (full, derived, a, r, m) refl

      -- A store that succeeds is loaded again; one that fails changes no row.
      abbrev pub Stored : List CredentialRow → Done W Unit → Type 0
      Stored rows (ok u, s) = load out master_key k s.rows ≡ ok given
      Stored rows (err e, s) = s.rows ≡ rows

      write_sealed-Stored :
          (u : utf8 access_token ≡ true) (v : Utf8 refresh_token) (rows : List CredentialRow)
          (r : Result Sealed CredentialStoreError × W)
          → Seals k.provider access_token refresh_token u v r
          → Stored rows (write_sealed out master_key k expires_at scopes "oauth" rows r)
      unfolding write_sealed load
      write_sealed-Stored u v rows (err e, w) h = refl
      write_sealed-Stored u v rows (ok sealed, w) h =
          ap (λ o. elim o [ none ↦ err not_found | some row ↦ decrypt_row out master_key row ])
            (find-replaced k _ rows
              (own_row out master_key k expires_at scopes "oauth" (out.clock w) sealed))
          ∙ decrypt_row-sealed u v (out.clock w) sealed w h

      -- If the cryptography is as documented, an OAuth credential of UTF-8 texts that is stored is given back by
      -- load, with its tokens, scopes and expiry, whatever credential stood there before. A store that fails
      -- changes no row.
      pub store-load :
          utf8 access_token ≡ true
          → Utf8 refresh_token
          → (s : State W)
          → Stored s.rows (store out master_key k access_token refresh_token expires_at scopes s)
      unfolding store
      store-load u v s =
          write_sealed-Stored u v s.rows
            (seal_oauth out master_key k.provider access_token refresh_token s.outside)
            (seal_oauth-Seals k.provider access_token refresh_token u v s.outside)
