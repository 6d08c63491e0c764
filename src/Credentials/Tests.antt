-- ===== src/Credentials/Tests.antt =====
-- A cipher that puts a tag in front, and a credential under it.
use edgeclaw.Prelude.{ℕ, ◌≡◌, refl, none, some, [], ◌∷◌, ◌++◌, find}
use edgeclaw.Prelude.Int.{pos, wrap_i64}
use edgeclaw.Types.{err}
use edgeclaw.Credentials.Crypto.{not_found, utf8, from_utf8, encrypt, decrypt, derive_key}
use edgeclaw.Credentials.Crypto.RoundTrip.{Opens, encrypt-Opens}
use edgeclaw.Credentials.Fixtures.{zeros, prim, prim-Documented, token, out}
use edgeclaw.Credentials.{
  Key, CredentialRow, Credential, oauth, State, has_key, is_expired, decrypt_row, decrypt_with,
  decrypt_text, decrypt_optional, decrypt_metadata, store, load, delete,
}
use edgeclaw.Credentials.Loads.{store-delete-others, load-delete}
use edgeclaw.Credentials.Stored.{Stored, store-load}
use edgeclaw.Credentials.Refresh.{load_and_refresh}
use edgeclaw.Credentials.Refresh.Laws.{
  Renewed, stored, load_and_refresh-unexpired, load_and_refresh-Renewed,
}

abbrev github : Key
github = record { user_id = "ann"; skill_name = "github"; provider = "github" }

abbrev mail : Key
mail = record github { skill_name = "mail" }

abbrev row : CredentialRow
row = record {
  user_id = "ann";
  skill_name = "github";
  provider = "github";
  access_token_enc = zeros 12 ++ zeros 16 ++ 97 ∷ [];
  refresh_token_enc = some (zeros 12 ++ zeros 16 ++ 98 ∷ []);
  expires_at = some (pos 1060);
  scopes = "repo";
  user_salt = zeros 32;
  created_at = pos 1;
  updated_at = pos 1;
  credential_type = "oauth";
  metadata_enc = none;
}

abbrev state : State ℕ
state = record { rows = row ∷ []; outside = 0 }

encrypt-Opens_example : Opens prim prim-Documented [] (97 ∷ []) (encrypt prim [] (97 ∷ []) 0)
encrypt-Opens_example = encrypt-Opens prim prim-Documented [] (97 ∷ []) 0

store-delete-others_example :
    (load out [] mail (store out [] github (97 ∷ []) none none "repo" state).1.rows
      ≡ load out [] mail (row ∷ []))
    × (load out [] mail (delete github (row ∷ [])) ≡ load out [] mail (row ∷ []))
store-delete-others_example =
    store-delete-others out [] github mail (97 ∷ []) none none "repo" state refl

load-delete_example : load out [] github (delete github (row ∷ [])) ≡ err not_found
load-delete_example = load-delete out [] github (row ∷ [])

store-load_example :
    Stored out [] prim-Documented github
      (97 ∷ [])
      (some (98 ∷ []))
      (some (pos 5))
      "repo"
      (row ∷ [])
      (store out [] github (97 ∷ []) (some (98 ∷ [])) (some (pos 5)) "repo" state)
unfolding utf8
store-load_example =
    store-load out [] prim-Documented github (97 ∷ []) (some (98 ∷ [])) (some (pos 5)) "repo" refl
      refl state

load_and_refresh-unexpired_test :
    load_and_refresh out [] github
      (record { rows = record row { expires_at = none } ∷ []; outside = 0 })
    ≡ (
      load out [] github (record row { expires_at = none } ∷ []),
      record { rows = record row { expires_at = none } ∷ []; outside = 0 },
    )
unfolding has_key is_expired
load_and_refresh-unexpired_test =
    load_and_refresh-unexpired out [] github
      (record { rows = record row { expires_at = none } ∷ []; outside = 0 })
      (record row { expires_at = none }) refl refl refl

abbrev opened : Credential
opened = record {
  access_token = 97 ∷ [];
  refresh_token = some (98 ∷ []);
  user_id = "ann";
  skill_name = "github";
  provider = "github";
  scopes = "repo";
  expires_at = some (pos 1060);
  credential_type = oauth;
  metadata = none;
}

found : find (has_key github) state.rows ≡ some row
unfolding has_key
found = refl

load_and_refresh-Renewed_example :
    Renewed out [] github state row found prim-Documented token
      (98 ∷ [])
      (stored out [] github state row found prim-Documented token (98 ∷ []) 0)
      (load_and_refresh out [] github state)
unfolding wrap_i64 is_expired decrypt_row decrypt_with decrypt_text decrypt_optional
    decrypt_metadata decrypt derive_key from_utf8 utf8
load_and_refresh-Renewed_example =
    load_and_refresh-Renewed out [] github state row found prim-Documented token (98 ∷ []) opened 0
      refl refl refl refl refl refl tt refl
