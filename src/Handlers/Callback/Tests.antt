-- ===== src/Handlers/Callback/Tests.antt =====
-- A flow that is begun, and completed by a callback.
use edgeclaw.Prelude.{ℕ, ◌≡◌, refl, none, some, true, [], ◌∷◌}
use edgeclaw.Types.{ok, err}
use edgeclaw.Credentials.Crypto.{utf8}
use edgeclaw.Credentials.Fixtures.{prim-Documented, token, out}
use edgeclaw.OAuth.{ProviderConfig, flow_not_found}
use edgeclaw.OAuth.Exchange.{TokenHttp}
use edgeclaw.Handlers.Callback.{OAuthConfig, OAuthState, handle_oauth_callback, oauth_start}
use edgeclaw.Handlers.Callback.Texts.{ReadsTexts}
use edgeclaw.Handlers.Callback.Laws.{Connected, handle_oauth_callback-Connected}
use edgeclaw.Handlers.Callback.Once.{handle_oauth_callback_once}

abbrev http : TokenHttp ℕ
http = record {
  post_form = λ url headers form w. (ok (record { is_success = true; body = some "{}" }), w);
  read_token = λ body. ok token;
  from_rsa_pem = λ pem. ok pem;
  encode_jwt = λ payload key. ok "jwt";
  unix_secs = λ w. 1000;
}

abbrev github : ProviderConfig
github = record {
  client_id = "id";
  client_secret = "secret";
  auth_url = "https://example.com/authorize";
  token_url = "https://example.com/token";
  default_scopes = "repo";
  extra_auth_params = [];
}

abbrev config : OAuthConfig
config = record {
  token_master_key = some [];
  providers = ("github", github) ∷ [];
  oauth_redirect_uri = "http://localhost/callback";
}

abbrev begun : OAuthState ℕ
begun = record {
  flows =
      (oauth_start (λ url pairs. url) (λ v. v) config
        (record { user_id = "ann"; skill_name = "github"; provider = "github"; scopes = none }) "n1"
        "v" 900 []).1;
  store = record { rows = []; outside = 0 };
}

reads : ReadsTexts http
unfolding utf8
reads body t h = let e : token ≡ t = cc in rw (← e) (refl, tt)

handle_oauth_callback-Connected_example :
    Connected out http config "code" "n1" begun
      (handle_oauth_callback out http config "code" "n1" begun)
handle_oauth_callback-Connected_example =
    handle_oauth_callback-Connected out http config prim-Documented reads "code" "n1" begun

handle_oauth_callback_once_example :
    handle_oauth_callback out http config "other" "n1"
      (handle_oauth_callback out http config "code" "n1" begun).1
    ≡ (err flow_not_found, (handle_oauth_callback out http config "code" "n1" begun).1)
handle_oauth_callback_once_example =
    handle_oauth_callback_once out http config "code" "other" "n1" begun
