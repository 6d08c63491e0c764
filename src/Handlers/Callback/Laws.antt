-- ===== src/Handlers/Callback/Laws.antt =====
-- What a callback that succeeds has stored.
use edgeclaw.Prelude.{
  ℕ, String, ◌≡◌, refl, sym, ap, ◌∙◌, Option, none, some, Option-cases, Bool-cases, inl, inr, arith,
  if◌then◌else◌, ltb,
}
use edgeclaw.Prelude.Int.{ℤ}
use edgeclaw.Types.{Result, ok, err}
use edgeclaw.Credentials.{Credential, Outside, Done, TokenResponse, load}
use edgeclaw.Credentials.Crypto.{Bytes}
use edgeclaw.Credentials.Crypto.RoundTrip.{Documented}
use edgeclaw.Credentials.Stored.{Utf8, Stored, given, store-load}
use edgeclaw.OAuth.{
  ProviderConfig, OAuthFlowState, OAuthFlows, OAuthError, token_exchange_failed, flow_not_found,
  flow_expired, lookup, remove, complete_flow,
}
use edgeclaw.OAuth.Exchange.{TokenHttp, provider_of, exchange_code}
use edgeclaw.Handlers.Callback.Texts.{TextOf, Texts, ReadsTexts, token_of-Texts}
use edgeclaw.Handlers.Callback.{
  OAuthConfig, OAuthState, key_of, expiry, stored, store_token, after_exchange, with_provider,
  after_complete, handle_oauth_callback,
}

module _ {W : Type 0} (out : Outside W) (http : TokenHttp W) (config : OAuthConfig) where
  -- The flow of the nonce, the provider and the master key, the token that the provider gave for the code, and the
  -- credential that is loaded from then on.
  abbrev pub Connected :
      (code nonce : String) → OAuthState W → Result String OAuthError × OAuthState W → Type 0
  Connected code nonce s (err e, s') = s'.store.rows ≡ s.store.rows
  Connected code nonce s (ok provider, s') =
      (st : OAuthFlowState) × (p : ProviderConfig) × (master_key : Bytes) × (token : TokenResponse)
      × (w : W) × (c : Credential) × (lookup nonce s.flows ≡ some st)
      × (provider ≡ st.provider)
      × (provider_of st.provider config.providers ≡ some p)
      × (config.token_master_key ≡ some master_key)
      × (exchange_code http p code st.code_verifier config.oauth_redirect_uri s.store.outside
          ≡ (ok token, w))
      × (load out master_key
            (record { user_id = st.user_id; skill_name = st.skill_name; provider = st.provider })
            s'.store.rows
          ≡ ok c)
      × (c.access_token ≡ token.access_token)
      × (c.refresh_token ≡ token.refresh_token)
      × (c.scopes ≡ st.scopes)
      × (c.expires_at ≡ expiry (http.unix_secs w) token.expires_in)

  module _ (documented : Documented out.prim) (reads : ReadsTexts http) (code nonce : String)
      (s : OAuthState W) (flows : OAuthFlows) where
    abbrev with_outside : W → OAuthState W
    with_outside w = record { flows = flows; store = record s.store { outside = w } }

    module _ (st : OAuthFlowState) (found : lookup nonce s.flows ≡ some st) where
      text_of :
          (master_key : Bytes) (o : Option Bytes) → TextOf o → Utf8 out master_key documented o
      text_of master_key none h = h
      text_of master_key (some b) h = h

      module _ (p : ProviderConfig) (listed : provider_of st.provider config.providers ≡ some p)
          (token : TokenResponse) (w : W)
          (exchanged : exchange_code http p code st.code_verifier config.oauth_redirect_uri
              s.store.outside
            ≡ (ok token, w)) where
        stored-Connected :
            (master_key : Bytes) (r : Done W (Unit {0}))
            → config.token_master_key ≡ some master_key
            → Stored out master_key documented
                (key_of st)
                token.access_token
                token.refresh_token
                (expiry (http.unix_secs w) token.expires_in)
                st.scopes
                s.store.rows
                r
            → Connected code nonce s (stored out http config st flows r)
        unfolding stored
        stored-Connected master_key (err e, t) m h = h
        stored-Connected master_key (ok u, t) m h = (
          st,
          p,
          master_key,
          token,
          w,
          given out master_key documented (key_of st) token.access_token token.refresh_token
              (expiry (http.unix_secs w) token.expires_in) st.scopes,
          found,
          refl,
          listed,
          m,
          exchanged,
          h,
          refl,
          refl,
          refl,
          refl,
        )

        store_token-Connected :
            (key : Option Bytes)
            → config.token_master_key ≡ key
            → Texts token
            → Connected code nonce s (store_token out http config st token key (with_outside w))
        unfolding store_token
        store_token-Connected none m t = refl
        store_token-Connected (some master_key) m t =
            let exp : Option ℤ = expiry (http.unix_secs w) token.expires_in in
            stored-Connected master_key _ m (
              store-load out master_key documented (key_of st) token.access_token
                token.refresh_token exp st.scopes t.0 (text_of master_key token.refresh_token t.1)
                (record s.store { outside = w }))

      module _ (p : ProviderConfig)
          (listed : provider_of st.provider config.providers ≡ some p) where
        exchange_code-Texts :
            (token : TokenResponse)
            → (exchange_code http p code st.code_verifier config.oauth_redirect_uri
                s.store.outside).0
              ≡ ok token
            → Texts token
        unfolding exchange_code
        exchange_code-Texts token h =
            token_of-Texts http token_exchange_failed "provider returned error: " _ token reads h

        after_exchange-Connected :
            (x : Result TokenResponse OAuthError × W)
            → exchange_code http p code st.code_verifier config.oauth_redirect_uri s.store.outside
              ≡ x
            → Connected code nonce s
                (after_exchange out http config st (record s { flows = flows }) x)
        unfolding after_exchange
        after_exchange-Connected (err e, w) q = refl
        after_exchange-Connected (ok token, w) q =
            store_token-Connected p listed token w q config.token_master_key refl
              (exchange_code-Texts token (ap (λ y. y.0) q))

      with_provider-Connected :
          (o : Option ProviderConfig)
          → provider_of st.provider config.providers ≡ o
          → Connected code nonce s
              (with_provider out http config st code o (record s { flows = flows }))
      unfolding with_provider
      with_provider-Connected none q = refl
      with_provider-Connected (some p) q = after_exchange-Connected p q _ refl

    after_complete-Connected :
        (r : Result OAuthFlowState OAuthError)
        → ((st : OAuthFlowState) → r ≡ ok st → lookup nonce s.flows ≡ some st)
        → Connected code nonce s
            (after_complete out http config code r (record s { flows = flows }))
    unfolding after_complete
    after_complete-Connected (err e) found = refl
    after_complete-Connected (ok st) found = with_provider-Connected st (found st refl) _ refl

  complete_flow-found :
      (nonce : String) (now : ℕ) (flows : OAuthFlows) (st : OAuthFlowState)
      → (complete_flow nonce now flows).0 ≡ ok st
      → lookup nonce flows ≡ some st
  unfolding complete_flow
  complete_flow-found nonce now flows st h = elim (Option-cases (lookup nonce flows)) [
    | inl e ↦ ground (arith, e)
    | inr (state, e) ↦ e ∙ in_time state (sym (ap (λ o. (outcome now o).0) e) ∙ h)
  ]
    where
      outcome : ℕ → Option OAuthFlowState → Result OAuthFlowState OAuthError × OAuthFlows
      outcome t o = elim o [
        | none ↦ (err flow_not_found, flows)
        | some state ↦
            (if ltb state.expires_at t then err flow_expired else ok state, remove nonce flows)
      ]

      in_time :
          (state : OAuthFlowState)
          → (if ltb state.expires_at now then err flow_expired else ok state) ≡ ok st
          → some state ≡ some st
      in_time state q = elim (Bool-cases (ltb state.expires_at now)) [
        | inl e ↦ absurd (ground arith)
        | inr e ↦ ap some (ground arith)
      ]

  -- If the cryptography is as documented and the texts of the provider's answer are UTF-8, a callback that reports success had a
  -- flow under its nonce, whose provider and a master key are configured, and the provider gave a token for the code and the
  -- flow's verifier; from then on the credential of the flow's user, skill and provider is loaded with the tokens, the
  -- flow's scopes, and the expiry that the answer gives. A callback that reports a failure changes no credential.
  pub handle_oauth_callback-Connected :
      Documented out.prim
      → ReadsTexts http
      → (code nonce : String) (s : OAuthState W)
      → Connected code nonce s (handle_oauth_callback out http config code nonce s)
  unfolding handle_oauth_callback
  handle_oauth_callback-Connected documented reads code nonce s =
      let now : ℕ = http.unix_secs s.store.outside in
      after_complete-Connected documented reads code nonce s (complete_flow nonce now s.flows).1
        (complete_flow nonce now s.flows).0 (complete_flow-found nonce now s.flows)
