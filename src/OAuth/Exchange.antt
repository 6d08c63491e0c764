-- ===== src/OAuth/Exchange.antt =====
-- crates/edgeclaw-server/src/oauth.rs: the requests to a provider's token endpoint, for a code, for a
-- refresh token, and for a service account.
use Prim.Native.Nat.{◌%◌}
use edgeclaw.Prelude.{
  ℕ, ◌+◌, ◌^◌, String, Option, none, some, Bool, List, [], ◌∷◌, str_eq, if◌then◌else◌, unwrap_or,
}
use edgeclaw.Prelude.Text.{◌<>◌}
use edgeclaw.Json.{Value, unsigned, string, object, field, end}
use edgeclaw.Types.{Result, ok, err, map_err}
use edgeclaw.Credentials.{TokenResponse, Outside}
use edgeclaw.Credentials.Crypto.{Bytes, CredentialStoreError, refresh_failed, service_account_error}
use edgeclaw.OAuth.{ProviderConfig, OAuthError, token_exchange_failed}

-- What a form sends: a text, or a token by its bytes.
pub data FormValue : Type 0 where
  text : String → FormValue
  secret : Bytes → FormValue

-- An answer, whose body may fail to be read.
pub record FormResponse : Type 0 where
  pub is_success : Bool
  pub body : Option String

-- reqwest, serde_json on a body, and the jsonwebtoken crate; `unix_secs` is the clock.
pub record TokenHttp (W : Type 0) : Type 0 where
  pub post_form :
      (url : String)
      → (headers : List (String × String)) → List (String × FormValue)
      → W
      → Result FormResponse String × W
  pub read_token : Option String → Result TokenResponse String
  pub from_rsa_pem : Bytes → Result Bytes String
  pub encode_jwt : Value → Bytes → Result String String
  pub unix_secs : W → ℕ

-- `providers.get(provider)`.
unfoldable pub provider_of : String → List (String × ProviderConfig) → Option ProviderConfig
provider_of name [] = none
provider_of name ((n, config) ∷ providers) =
    if str_eq n name then some config else provider_of name providers

-- The parameters of the service account's claims; the sum wraps in 64 bits.
unfoldable pub claims : (client_email token_uri scopes : String) → ℕ → Value
claims client_email token_uri scopes now = object (
    field "iss" (string client_email) (
      field "sub" (string client_email) (
        field "aud" (string token_uri) (
          field "iat" (unsigned now)
            (field "exp" (unsigned ((now + 3600) % 2 ^ 64)) (field "scope" (string scopes) end))))))

module _ {W : Type 0} (http : TokenHttp W) where
  -- What the answer gives; a refusal is named by the first text, and each failure by the error.
  unfoldable pub token_of :
      {E : Type 0} → (String → E) → String → Result FormResponse String → Result TokenResponse E
  token_of failed refused (err e) = err (failed e)
  token_of failed refused (ok resp) =
      if resp.is_success
      then map_err failed (http.read_token resp.body)
      else err (failed (refused <> unwrap_or resp.body "no body"))

  unfoldable pub exchange_code :
      ProviderConfig
      → (code code_verifier redirect_uri : String) → W
      → Result TokenResponse OAuthError × W
  unfolding token_of
  exchange_code provider code code_verifier redirect_uri w =
      let (r, w') =
        http.post_form provider.token_url (("Accept", "application/json") ∷ [])
          (("grant_type", text "authorization_code")
            ∷ ("client_id", text provider.client_id)
            ∷ ("client_secret", text provider.client_secret)
            ∷ ("code", text code)
            ∷ ("code_verifier", text code_verifier)
            ∷ ("redirect_uri", text redirect_uri)
            ∷ [])
          w in
      (token_of token_exchange_failed "provider returned error: " r, w')

  -- `ReqwestTokenRefresher::refresh_token`.
  unfoldable pub refresh_token :
      List (String × ProviderConfig)
      → String
      → Bytes
      → W
      → Result TokenResponse CredentialStoreError × W
  unfolding provider_of token_of
  refresh_token providers provider token w = elim (provider_of provider providers) [
    | none ↦ (err (refresh_failed ("provider not configured: " <> provider)), w)
    | some config ↦
        let (r, w') =
          http.post_form config.token_url (("Accept", "application/json") ∷ [])
            (("grant_type", text "refresh_token")
              ∷ ("client_id", text config.client_id)
              ∷ ("client_secret", text config.client_secret)
              ∷ ("refresh_token", secret token)
              ∷ [])
            w in
        (token_of refresh_failed "provider returned error: " r, w')
  ]

  unfoldable pub send_assertion :
      String
      → Result String CredentialStoreError
      → W
      → Result TokenResponse CredentialStoreError × W
  unfolding token_of
  send_assertion token_uri (err e) w = (err e, w)
  send_assertion token_uri (ok jwt) w =
      let (r, w') =
        http.post_form token_uri []
          (("grant_type", text "urn:ietf:params:oauth:grant-type:jwt-bearer")
            ∷ ("assertion", text jwt)
            ∷ [])
          w in
      (token_of service_account_error "token endpoint returned error: " r, w')

  unfoldable pub sign : Value → Result Bytes String → Result String CredentialStoreError
  sign payload (err e) = err (service_account_error ("invalid RSA key: " <> e))
  sign payload (ok key) =
      map_err (λ e. service_account_error ("JWT sign failed: " <> e)) (http.encode_jwt payload key)

  -- `ReqwestTokenRefresher::mint_service_account_token`.
  unfoldable pub mint_service_account_token :
      Bytes
      → (client_email token_uri scopes : String) → W
      → Result TokenResponse CredentialStoreError × W
  unfolding send_assertion sign claims
  mint_service_account_token private_key_pem client_email token_uri scopes w =
      send_assertion token_uri
        (sign (claims client_email token_uri scopes (http.unix_secs w))
          (http.from_rsa_pem private_key_pem))
        w

-- The store's `TokenRefresher` is the one of the server.
abbrev pub with_refresher :
    {W : Type 0} → TokenHttp W → List (String × ProviderConfig) → Outside W → Outside W
with_refresher http providers out = record out {
  refresh_token = refresh_token http providers;
  mint_token = mint_service_account_token http;
}
