-- ===== src/OAuth.antt =====
-- crates/edgeclaw-server/src/oauth.rs: the PKCE flows that are under way.
pub mod Flows
pub mod Exchange
mod Tests
use Prim.Native.Nat.{◌%◌}
use edgeclaw.Prelude.{
  ℕ, ◌+◌, ◌^◌, String, Option, none, some, Bool, not, List, [], ◌∷◌, ◌++◌, retain, str_eq, ltb,
  if◌then◌else◌, unwrap_or,
}
use edgeclaw.Credentials.Crypto.{CredentialStoreError}
use edgeclaw.Types.{Result, ok, err}

pub record ProviderConfig : Type 0 where
  pub client_id : String
  pub client_secret : String
  pub auth_url : String
  pub token_url : String
  pub default_scopes : String
  pub extra_auth_params : List (String × String)

pub record OAuthFlowState : Type 0 where
  pub user_id : String
  pub skill_name : String
  pub provider : String
  pub code_verifier : String
  pub scopes : String
  pub expires_at : ℕ
  pub created_at : ℕ

-- The map of the flows, by their nonces.
abbrev pub OAuthFlows : Type 0
OAuthFlows = List (String × OAuthFlowState)

pub data OAuthError : Type 0 where
  flow_not_found flow_expired master_key_not_configured : OAuthError
  provider_not_configured token_exchange_failed : String → OAuthError
  credential_store : CredentialStoreError → OAuthError

unfoldable pub remove : String → OAuthFlows → OAuthFlows
remove nonce flows = retain (λ e. not (str_eq e.0 nonce)) flows

unfoldable pub lookup : String → OAuthFlows → Option OAuthFlowState
lookup nonce [] = none
lookup nonce ((n, state) ∷ flows) = if str_eq n nonce then some state else lookup nonce flows

-- `HashMap::insert`.
unfoldable pub insert : String → OAuthFlowState → OAuthFlows → OAuthFlows
unfolding remove
insert nonce state flows = (nonce, state) ∷ remove nonce flows

-- The state of a new flow, which lasts ten minutes.
unfoldable pub new_flow :
    (code_verifier : String) (now : ℕ)
    → (user_id skill_name : String) → ProviderConfig
    → (provider_name : String) → Option String
    → OAuthFlowState
new_flow code_verifier now user_id skill_name provider_config provider_name scopes = record {
  user_id = user_id;
  skill_name = skill_name;
  provider = provider_name;
  code_verifier = code_verifier;
  scopes = unwrap_or scopes provider_config.default_scopes;
  expires_at = (now + 600) % 2 ^ 64;
  created_at = now;
}

-- The url crate's `query_pairs_mut().append_pair`, over all pairs, and the S256 challenge: SHA-256, and
-- base64url, of the verifier.
module _ (with_query : String → List (String × String) → String)
    (compute_code_challenge : String → String) where
  unfoldable pub build_authorization_url :
      ProviderConfig → String → String → String → String → String
  build_authorization_url provider redirect_uri state code_challenge scopes =
      with_query provider.auth_url (
        ("client_id", provider.client_id)
        ∷ ("redirect_uri", redirect_uri)
        ∷ ("response_type", "code")
        ∷ ("state", state)
        ∷ ("code_challenge", code_challenge)
        ∷ ("code_challenge_method", "S256")
        ∷ ("scope", scopes)
        ∷ provider.extra_auth_params)

  -- `init_flow`, on the nonce and the verifier that it draws and the time.
  unfoldable pub init_flow :
      (nonce code_verifier : String) (now : ℕ)
      → (user_id skill_name : String) → ProviderConfig
      → (provider_name redirect_uri : String) → Option String
      → OAuthFlows
      → (String × String) × OAuthFlows
  unfolding build_authorization_url insert new_flow
  init_flow nonce code_verifier now user_id skill_name provider_config provider_name redirect_uri
        scopes flows =
      let scope = unwrap_or scopes provider_config.default_scopes in
      (
        (
          nonce,
          build_authorization_url provider_config redirect_uri nonce
              (compute_code_challenge code_verifier) scope,
        ),
        insert nonce
            (new_flow code_verifier now user_id skill_name provider_config provider_name scopes)
            flows,
      )

-- `complete_flow`, at a time.
unfoldable pub complete_flow :
    String → ℕ → OAuthFlows → Result OAuthFlowState OAuthError × OAuthFlows
unfolding lookup remove
complete_flow nonce now flows = elim (lookup nonce flows) [
  | none ↦ (err flow_not_found, flows)
  | some state ↦
      (if ltb state.expires_at now then err flow_expired else ok state, remove nonce flows)
]

-- One round of `spawn_flow_cleanup`.
unfoldable pub cleanup : ℕ → OAuthFlows → OAuthFlows
cleanup now flows = retain (λ e. ltb now e.1.expires_at) flows
