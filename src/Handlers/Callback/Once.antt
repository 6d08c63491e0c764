-- ===== src/Handlers/Callback/Once.antt =====
-- A nonce is used up by its first callback.
use edgeclaw.Prelude.{
  ℕ, String, ◌≡◌, refl, ap, ◌∙◌, Option, none, some, Option-cases, inl, inr, arith,
}
use edgeclaw.Types.{Result, ok, err}
use edgeclaw.Credentials.{Outside, Done, TokenResponse}
use edgeclaw.Credentials.Crypto.{Bytes}
use edgeclaw.OAuth.{
  ProviderConfig, OAuthFlowState, OAuthFlows, OAuthError, flow_not_found, lookup, complete_flow,
}
use edgeclaw.OAuth.Flows.{lookup-removed}
use edgeclaw.OAuth.Exchange.{TokenHttp, exchange_code}
use edgeclaw.Handlers.Callback.{
  OAuthConfig, OAuthState, stored, store_token, after_exchange, with_provider, after_complete,
  handle_oauth_callback,
}

module _ {W : Type 0} (out : Outside W) (http : TokenHttp W) (config : OAuthConfig) where
  with_provider-flows :
      (st : OAuthFlowState) (code : String) (o : Option ProviderConfig) (s : OAuthState W)
      → (with_provider out http config st code o s).1.flows ≡ s.flows
  unfolding with_provider after_exchange store_token stored
  with_provider-flows st code none s = refl
  with_provider-flows st code (some p) s =
      exchanged
        (exchange_code http p code st.code_verifier config.oauth_redirect_uri s.store.outside)
    where
      finished : (r : Done W (Unit {0})) → (stored out http config st s.flows r).1.flows ≡ s.flows
      finished (err e, t) = refl
      finished (ok u, t) = refl

      keyed :
          (token : TokenResponse) (w : W) (key : Option Bytes)
          → (store_token out http config st token key
              (record s { store = record s.store { outside = w } })).1.flows
            ≡ s.flows
      keyed token w none = refl
      keyed token w (some k) = finished _

      exchanged :
          (x : Result TokenResponse OAuthError × W)
          → (after_exchange out http config st s x).1.flows ≡ s.flows
      exchanged (err e, w) = refl
      exchanged (ok token, w) = keyed token w config.token_master_key

  after_complete-flows :
      (code : String) (r : Result OAuthFlowState OAuthError) (s : OAuthState W)
      → (after_complete out http config code r s).1.flows ≡ s.flows
  unfolding after_complete
  after_complete-flows code (err e) s = refl
  after_complete-flows code (ok st) s = with_provider-flows st code _ s

  complete_flow-lookup :
      (nonce : String) (now : ℕ) (flows : OAuthFlows)
      → lookup nonce (complete_flow nonce now flows).1 ≡ none
  unfolding complete_flow
  complete_flow-lookup nonce now flows = elim (Option-cases (lookup nonce flows)) [
    | inl e ↦ ground (arith, e)
    | inr (state, e) ↦ ground (arith, e, lookup-removed nonce flows)
  ]

  complete_flow-absent :
      (nonce : String) (now : ℕ) (flows : OAuthFlows)
      → lookup nonce flows ≡ none
      → complete_flow nonce now flows ≡ (err flow_not_found, flows)
  unfolding complete_flow
  complete_flow-absent nonce now flows e = rw (e, complete_flow) refl

  -- Whatever became of a callback, a second one with its nonce is refused, changes nothing and asks no provider.
  pub handle_oauth_callback_once :
      (code code' nonce : String) (s : OAuthState W)
      → let after = (handle_oauth_callback out http config code nonce s).1 in
        handle_oauth_callback out http config code' nonce after ≡ (err flow_not_found, after)
  unfolding handle_oauth_callback
  handle_oauth_callback_once code code' nonce s =
      again _
        (ap (lookup nonce) (after_complete-flows code _ _) ∙ complete_flow-lookup nonce _ s.flows)
    where
      again :
          (t : OAuthState W)
          → lookup nonce t.flows ≡ none
          → handle_oauth_callback out http config code' nonce t ≡ (err flow_not_found, t)
      again t e =
          ap (λ x. after_complete out http config code' x.0 (record t { flows = x.1 }))
            (complete_flow-absent nonce (http.unix_secs t.store.outside) t.flows e)
          ∙ unfold after_complete in refl
