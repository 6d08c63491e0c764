-- ===== src/Handlers/Callback.antt =====
-- crates/edgeclaw-server/src/handlers.rs: the handlers that begin and end an OAuth flow, and the one that
-- imports a service account.
pub mod Texts
pub mod Laws
pub mod Once
mod Tests
use Prim.Native.Nat.{◌%◌}
use edgeclaw.Prelude.{
  ℕ, ◌^◌, String, Option, none, some, List, [], ◌∷◌, unwrap_or, if◌then◌else◌, ltb, ◌-◌,
}
use edgeclaw.Prelude.Int.{ℤ, pos, negsuc, add_i64}
use edgeclaw.Prelude.Text.{◌<>◌}
use edgeclaw.Json.{Value, string, unsigned, object, field, end, get_str}
use edgeclaw.Types.{Result, ok, err, map_err}
use edgeclaw.Credentials.{
  Key, Outside, State, Done, TokenResponse, ServiceAccountMetadata, store, store_service_account,
}
use edgeclaw.Credentials.Crypto.{
  Bytes, CredentialStoreError, key_derivation, encryption, decryption, refresh_failed,
  credential_invalid, service_account_error, database, not_found, invalid_master_key,
}
use edgeclaw.OAuth.{
  ProviderConfig, OAuthFlowState, OAuthFlows, OAuthError, flow_not_found, flow_expired,
  master_key_not_configured, provider_not_configured, token_exchange_failed, credential_store,
  init_flow, complete_flow,
}
use edgeclaw.OAuth.Exchange.{TokenHttp, provider_of, exchange_code}
use edgeclaw.Handlers.{Failure, Reply, bad_request, internal_error}
use edgeclaw.Handlers.Html.{html_escape}

-- server.rs, `ServerConfig`, as far as these handlers use it.
pub record OAuthConfig : Type 0 where
  pub token_master_key : Option Bytes
  pub providers : List (String × ProviderConfig)
  pub oauth_redirect_uri : String

pub record OAuthStartRequest : Type 0 where
  pub user_id : String
  pub skill_name : String
  pub provider : String
  pub scopes : Option String

pub record ImportServiceAccountRequest : Type 0 where
  pub user_id : String
  pub skill_name : String
  pub provider : String
  pub scopes : String
  pub service_account_json : Value

-- The flows, and the table of credentials with the outside.
pub record OAuthState (W : Type 0) : Type 0 where
  pub flows : OAuthFlows
  pub store : State W

-- `Display` of the store's errors.
unfoldable pub display_store_error : CredentialStoreError → String
display_store_error (key_derivation s) = "key derivation failed: " <> s
display_store_error (encryption s) = "encryption failed: " <> s
display_store_error (decryption s) = "decryption failed: " <> s
display_store_error (database s) = "database error: " <> s
display_store_error not_found = "credential not found"
display_store_error invalid_master_key = "invalid master key"
display_store_error (refresh_failed s) = "token refresh failed: " <> s
display_store_error (credential_invalid s) = "credential invalid: " <> s
display_store_error (service_account_error s) = "service account error: " <> s

-- `Display` of `OAuthError`.
unfoldable pub display_oauth_error : OAuthError → String
unfolding display_store_error
display_oauth_error flow_not_found = "flow not found"
display_oauth_error flow_expired = "flow expired"
display_oauth_error (provider_not_configured s) = "provider not configured: " <> s
display_oauth_error (token_exchange_failed s) = "token exchange failed: " <> s
display_oauth_error master_key_not_configured = "master key not configured"
display_oauth_error (credential_store e) = "credential store error: " <> display_store_error e

abbrev pub key_of : OAuthFlowState → Key
key_of st = record { user_id = st.user_id; skill_name = st.skill_name; provider = st.provider }

-- A u64 as an i64.
abbrev pub as_i64 : ℕ → ℤ
as_i64 n = if ltb (n % 2 ^ 64) (2 ^ 63) then pos (n % 2 ^ 64) else negsuc (2 ^ 64 - n % 2 ^ 64 - 1)

unfoldable pub expiry : ℕ → Option ℤ → Option ℤ
expiry secs none = none
expiry secs (some ei) = some (add_i64 (as_i64 secs) ei)

module _ {W : Type 0} (out : Outside W) (http : TokenHttp W) (config : OAuthConfig) where
  unfoldable pub stored :
      OAuthFlowState → OAuthFlows → Done W Unit → Result String OAuthError × OAuthState W
  stored st flows (err e, s) = (err (credential_store e), record { flows = flows; store = s })
  stored st flows (ok u, s) = (ok st.provider, record { flows = flows; store = s })

  -- With the token, and the key, if there is one.
  unfoldable pub store_token :
      OAuthFlowState
      → TokenResponse
      → Option Bytes
      → OAuthState W
      → Result String OAuthError × OAuthState W
  unfolding stored expiry store
  store_token st token none s = (err master_key_not_configured, s)
  store_token st token (some master_key) s = stored st s.flows (
      store out master_key (key_of st) token.access_token token.refresh_token
        (expiry (http.unix_secs s.store.outside) token.expires_in) st.scopes s.store)

  unfoldable pub after_exchange :
      OAuthFlowState
      → OAuthState W
      → Result TokenResponse OAuthError × W
      → Result String OAuthError × OAuthState W
  unfolding store_token
  after_exchange st s (err e, w) = (err e, record s { store = record s.store { outside = w } })
  after_exchange st s (ok token, w) =
      store_token st token config.token_master_key
        (record s { store = record s.store { outside = w } })

  unfoldable pub with_provider :
      OAuthFlowState
      → String
      → Option ProviderConfig
      → OAuthState W
      → Result String OAuthError × OAuthState W
  unfolding after_exchange exchange_code
  with_provider st code none s = (err (provider_not_configured st.provider), s)
  with_provider st code (some provider) s =
      after_exchange st s (
        exchange_code http provider code st.code_verifier config.oauth_redirect_uri s.store.outside)

  unfoldable pub after_complete :
      String
      → Result OAuthFlowState OAuthError
      → OAuthState W
      → Result String OAuthError × OAuthState W
  unfolding with_provider provider_of
  after_complete code (err e) s = (err e, s)
  after_complete code (ok st) s = with_provider st code (provider_of st.provider config.providers) s

  -- `handle_oauth_callback`.
  unfoldable pub handle_oauth_callback :
      (code nonce : String) → OAuthState W → Result String OAuthError × OAuthState W
  unfolding after_complete complete_flow
  handle_oauth_callback code nonce s =
      let (r, flows) = complete_flow nonce (http.unix_secs s.store.outside) s.flows in
      after_complete code r (record s { flows = flows })

  unfoldable pub callback_page : Result String OAuthError → String
  unfolding html_escape display_oauth_error
  callback_page (ok provider) =
      "<html><body><h1>Authorization successful</h1><p>Your "
      <> html_escape provider
      <> " account has been connected. You can close this window.</p></body></html>"
  callback_page (err e) =
      "<html><body><h1>Authorization failed</h1><p>Error: "
      <> html_escape (display_oauth_error e)
      <> "</p></body></html>"

  -- `oauth_callback_handler`.
  unfoldable pub oauth_callback : (code nonce : String) → OAuthState W → String × OAuthState W
  unfolding callback_page handle_oauth_callback
  oauth_callback code nonce s =
      let (r, s') = handle_oauth_callback code nonce s in (callback_page r, s')

  unfoldable pub import_with :
      ImportServiceAccountRequest
      → Bytes
      → Option String
      → Option String
      → (String → Bytes)
      → OAuthState W
      → Reply × OAuthState W
  unfolding bad_request internal_error display_store_error store_service_account
  import_with body master_key none client_email utf8_bytes s =
      (err (bad_request "service_account_json missing 'private_key'"), s)
  import_with body master_key (some private_key) none utf8_bytes s =
      (err (bad_request "service_account_json missing 'client_email'"), s)
  import_with body master_key (some private_key) (some client_email) utf8_bytes s =
      let (r, store') =
        store_service_account out master_key
          (record {
            user_id = body.user_id;
            skill_name = body.skill_name;
            provider = body.provider;
          })
          (utf8_bytes private_key)
          (record {
            client_email = client_email;
            token_uri =
                unwrap_or (get_str body.service_account_json "token_uri")
                  "https://oauth2.googleapis.com/token";
          })
          body.scopes s.store in
      (
        elim r [
          | err e ↦ err (internal_error (display_store_error e))
          | ok u ↦ ok (
              object (
                field "credential_type" (string "service_account") (
                  field "provider" (string body.provider)
                    (field "skill_name" (string body.skill_name) end))))
        ],
        record s { store = store' },
      )

  -- `import_service_account_handler`; `utf8_bytes` gives the bytes of a text.
  unfoldable pub import_service_account :
      (String → Bytes) → ImportServiceAccountRequest → OAuthState W → Reply × OAuthState W
  unfolding import_with bad_request
  import_service_account utf8_bytes body s = elim config.token_master_key [
    | none ↦ (err (bad_request "master key not configured"), s)
    | some master_key ↦
        import_with body master_key (get_str body.service_account_json "private_key")
          (get_str body.service_account_json "client_email") utf8_bytes s
  ]

-- `oauth_start_handler`, with the nonce and the verifier that it draws.
module _ (with_query : String → List (String × String) → String)
    (compute_code_challenge : String → String) (config : OAuthConfig) where
  unfoldable pub oauth_start :
      OAuthStartRequest → (nonce code_verifier : String) (now : ℕ) → OAuthFlows → Reply × OAuthFlows
  unfolding provider_of bad_request init_flow
  oauth_start body nonce code_verifier now flows =
      elim (provider_of body.provider config.providers) [
        | none ↦ (err (bad_request ("provider '" <> body.provider <> "' is not configured")), flows)
        | some provider ↦
            let ((n, url), flows') =
              init_flow with_query compute_code_challenge nonce code_verifier now body.user_id
                body.skill_name provider body.provider config.oauth_redirect_uri body.scopes
                flows in
            (
              ok (
                  object (
                    field "authorization_url" (string url)
                      (field "expires_in_seconds" (unsigned 600) end))),
              flows',
            )
      ]
