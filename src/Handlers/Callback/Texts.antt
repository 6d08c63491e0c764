-- ===== src/Handlers/Callback/Texts.antt =====
-- The texts of a provider's answer.
use edgeclaw.Prelude.{
  String, ◌≡◌, refl, sym, ◌∙◌, Option, none, some, true, false, Bool-cases, inl, inr, unwrap_or,
}
use edgeclaw.Prelude.Text.{◌<>◌}
use edgeclaw.Types.{Result, ok, err, map_err}
use edgeclaw.Credentials.{TokenResponse}
use edgeclaw.Credentials.Crypto.{Bytes, utf8}
use edgeclaw.OAuth.Exchange.{TokenHttp, FormResponse, token_of}

map_err-ok : {A E F : Type 0} (f : E → F) (r : Result A E) (a : A) → map_err f r ≡ ok a → r ≡ ok a
map_err-ok f (ok b) a h = cc
map_err-ok f (err e) a h = cc

abbrev pub TextOf : Option Bytes → Type 0
TextOf none = Unit {0}
TextOf (some b) = utf8 b ≡ true

abbrev pub Texts : TokenResponse → Type 0
Texts token = (utf8 token.access_token ≡ true) × TextOf token.refresh_token

module _ {W : Type 0} (http : TokenHttp W) where
  -- The texts of an answer's JSON are UTF-8.
  abbrev pub ReadsTexts : Type 0
  ReadsTexts =
      (body : Option String) (token : TokenResponse) → http.read_token body ≡ ok token → Texts token

  pub token_of-Texts :
      {E : Type 0} (failed : String → E) (refused : String) (r : Result FormResponse String)
      (token : TokenResponse)
      → ReadsTexts
      → token_of http failed refused r ≡ ok token
      → Texts token
  unfolding token_of
  token_of-Texts failed refused (err e) token reads h = cc
  token_of-Texts failed refused (ok resp) token reads h = elim (Bool-cases resp.is_success) [
    | inl e ↦
        reads resp.body token
          (map_err-ok failed (http.read_token resp.body) token (sym (if_true e) ∙ h))
    | inr e ↦ cc (if_false e)
  ]
    where
      if_true :
          resp.is_success ≡ true
          → token_of http failed refused (ok resp) ≡ map_err failed (http.read_token resp.body)
      if_true e = rw e refl

      if_false :
          resp.is_success ≡ false
          → token_of http failed refused (ok resp)
            ≡ err (failed (refused <> unwrap_or resp.body "no body"))
      if_false e = rw e refl
