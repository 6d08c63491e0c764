-- ===== src/Credentials/Refresh/Laws.antt =====
-- A token that is refreshed, and one that need not be.
use edgeclaw.Prelude.{
  ◌≡◌, refl, sym, ap, subst, ◌∙◌, Option, none, some, Bool, true, false, find, str_eq,
}
use edgeclaw.Prelude.Int.{ℤ}
use edgeclaw.Types.{ok, err, and_then}
use edgeclaw.Credentials.Crypto.{Bytes, not_found, utf8}
use edgeclaw.Credentials.Crypto.RoundTrip.{Documented}
use edgeclaw.Credentials.{
  Key, CredentialRow, Credential, TokenResponse, Outside, State, Done, has_key, is_expired,
  decrypt_row, load, store,
}
use edgeclaw.Credentials.Stored.{Utf8, Stored, given, store-load}
use edgeclaw.Credentials.Refresh.{
  expiry, or_else, load_and_refresh, use_row, mint, refresh, refresh_with, store_refreshed,
}

module _ {W : Type 0} (out : Outside W) (master_key : Bytes) (k : Key) where
  module _ (s : State W) (row : CredentialRow) (found : find (has_key k) s.rows ≡ some row) where
    on_row : load_and_refresh out master_key k s ≡ use_row out master_key k row s
    unfolding load_and_refresh
    on_row =
        ap (λ o. elim o [ none ↦ (err not_found, s) | some r ↦ use_row out master_key k r s ]) found

    load-row : load out master_key k s.rows ≡ decrypt_row out master_key row
    unfolding load
    load-row =
        ap (λ o. elim o [ none ↦ err not_found | some r ↦ decrypt_row out master_key r ]) found

    abbrev by_expiry : Bool → Done W Credential
    by_expiry b = elim b [
      | false ↦ (decrypt_row out master_key row, s)
      | true ↦ refresh out master_key k row (out.clock s.outside) s
    ]

    use_row-oauth :
        str_eq row.credential_type "service_account" ≡ false
        → use_row out master_key k row s
          ≡ by_expiry (is_expired row.expires_at (out.clock s.outside))
    unfolding use_row
    use_row-oauth oauth =
        ap
          (λ b. elim b [
            | true ↦ mint out master_key k row (out.clock s.outside) s
            | false ↦ by_expiry (is_expired row.expires_at (out.clock s.outside))
          ])
          oauth

    -- An OAuth token that is not expired is loaded as it is, and nothing changes.
    pub load_and_refresh-unexpired :
        str_eq row.credential_type "service_account" ≡ false
        → is_expired row.expires_at (out.clock s.outside) ≡ false
        → load_and_refresh out master_key k s ≡ (load out master_key k s.rows, s)
    load_and_refresh-unexpired oauth fresh =
        on_row ∙ use_row-oauth oauth ∙ ap by_expiry fresh ∙ ap (λ r. (r, s)) (sym load-row)

    module _ (documented : Documented out.prim) (token : TokenResponse) (rt : Bytes) where
      -- The credential with the new tokens.
      abbrev pub renewed : Credential
      renewed =
          given out master_key documented k token.access_token
            (or_else token.refresh_token (some rt)) (expiry (out.clock s.outside) token.expires_in)
            row.scopes

      -- What the store of the new tokens gives, with the outside as the provider's answer left it.
      abbrev pub stored : W → Done W Unit
      stored w =
          store out master_key k token.access_token (or_else token.refresh_token (some rt))
            (expiry (out.clock s.outside) token.expires_in) row.scopes
            (record { rows = s.rows; outside = w })

      -- Where that store succeeds, the reply is the renewed credential, which is loaded from then on; where it fails,
      -- the reply is its error, and no row is changed.
      abbrev pub Renewed : Done W Unit → Done W Credential → Type 0
      Renewed (ok u, s') r = (r ≡ (ok renewed, s')) × (load out master_key k s'.rows ≡ ok renewed)
      Renewed (err e, s') r = (r ≡ (err e, s')) × (s'.rows ≡ s.rows)

      after_store :
          (x : Done W Unit)
          → Stored out master_key documented k token.access_token
              (or_else token.refresh_token (some rt))
              (expiry (out.clock s.outside) token.expires_in)
              row.scopes
              s.rows
              x
          → Renewed x (and_then x.0 (λ u. load out master_key k x.1.rows), x.1)
      after_store (err e, s') h = (refl, h)
      after_store (ok u, s') h = (ap (λ r. (r, s')) h, h)

      or_else-Utf8 :
          (o : Option Bytes)
          → Utf8 out master_key documented o
          → utf8 rt ≡ true
          → Utf8 out master_key documented (or_else o (some rt))
      or_else-Utf8 none v u = u
      or_else-Utf8 (some t) v u = v

      -- An OAuth token that is expired is refreshed, if its credential can be decrypted and has a refresh token, and
      -- the provider answers, with texts of UTF-8: the new token is stored, with the new refresh token or else the old
      -- one, and the new expiry. Where that succeeds, the credential with these is replied, and is what a load gives
      -- from then on; where it fails, its error is the reply, and no row changes.
      pub load_and_refresh-Renewed :
          (cred : Credential) (w : W)
          → str_eq row.credential_type "service_account" ≡ false
          → is_expired row.expires_at (out.clock s.outside) ≡ true
          → decrypt_row out master_key row ≡ ok cred
          → cred.refresh_token ≡ some rt
          → out.refresh_token k.provider rt s.outside ≡ (ok token, w)
          → utf8 token.access_token ≡ true
          → Utf8 out master_key documented token.refresh_token
          → utf8 rt ≡ true
          → Renewed (stored w) (load_and_refresh out master_key k s)
      unfolding refresh refresh_with store_refreshed
      load_and_refresh-Renewed cred w oauth expired opened has_rt answer u v r =
          subst (Renewed (stored w)) (sym path) (
            after_store (stored w) (
              store-load out master_key documented k token.access_token
                (or_else token.refresh_token (some rt))
                (expiry (out.clock s.outside) token.expires_in) row.scopes u
                (or_else-Utf8 token.refresh_token v r) (record { rows = s.rows; outside = w })))
        where
          now : ℤ
          now = out.clock s.outside

          path :
              load_and_refresh out master_key k s
              ≡ store_refreshed out master_key k row rt now s.rows (ok token, w)
          path =
              on_row
              ∙ use_row-oauth oauth
              ∙ ap by_expiry expired
              ∙ ap
                  (λ d. elim d [
                    | err e ↦ (err e, s)
                    | ok c ↦ refresh_with out master_key k row now c.refresh_token s
                  ])
                  opened
              ∙ ap (λ o. refresh_with out master_key k row now o s) has_rt
              ∙ ap (store_refreshed out master_key k row rt now s.rows) answer
