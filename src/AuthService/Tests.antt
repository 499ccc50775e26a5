-- ===== src/AuthService/Tests.antt =====
-- Runs of the authorization server, and its theorems at concrete inputs.
use memory_hub.Base.{
  join, ℕ, true, false, none, some, [], ◌∷◌, ◌==◌, text_eq, text_beq, codes, ◌≡◌, refl, sorted,
  to_set, words,
}
use memory_hub.AuthService.{ready, OAuthClient, RefreshToken, AuthSession, Db, Settings, Crypto}
use memory_hub.AuthService.Tx.{
  ok, ◌>>=◌, pure, lift, gets, update_tokens, update_sessions, guard, one_or_none, or_fail,
  transact, is_ok,
}
use memory_hub.AuthService.Grants.{
  Env, given, need, active_clients, lookup_client, check_secret, verify_pkce, add_refresh_token,
  is_live, revoke, revoke_in, is_claimable, use_sessions, claim_code, claim_and_redeem, issue,
  find_refresh_token, find_and_rotate, rotate, redeem, handle_refresh_token,
  handle_authorization_code, resolve_scopes, scope_list, TokenResponse, handle_client_credentials,
  authenticate_client,
}
use memory_hub.AuthService.Endpoint.{
  TokenRequest, Platform, token, cleanup, token_endpoint, step, run,
}
use memory_hub.AuthService.CodeOnce.{code_used_once}
use memory_hub.AuthService.Rotation.{refresh_used_once}
use memory_hub.AuthService.Granted.{IsGranted, client_credentials-IsGranted}

-- stand-ins for the digests and the signature
abbrev crypto : Crypto
crypto = record {
  sha256_hex = λ t. b'#' ∷ t;
  checkpw = λ secret hash. secret == hash;
  s256_challenge = λ t. b'!' ∷ t;
  encode = λ c. codes "jwt";
}

abbrev settings : Settings
settings = record {
  access_token_ttl = 60;
  refresh_token_ttl = 600;
  auth_session_pending_ttl = 300;
  auth_session_ready_ttl = 30;
  token_exchange_enabled = false;
  default_tenant_id = codes "default";
  default_human_scopes = codes "memory:read" ∷ [];
  openshift_oauth_authorize_url = codes "https://o";
}

abbrev platform : Platform
platform = record {
  validate_subject_token = λ t. ok t;
  resolve_tenant = λ n. codes "default";
  resolve_user = λ c. ok (codes "ann");
}

abbrev agent : OAuthClient
agent = record {
  client_id = codes "agent";
  client_secret_hash = codes "pw";
  identity_type = codes "user";
  tenant_id = codes "t1";
  default_scopes = codes "memory:read" ∷ codes "memory:write" ∷ [];
  active = true;
  redirect_uris = some (codes "cb" ∷ []);
  public = true;
}

abbrev open_session : AuthSession
open_session = record {
  session_id = codes "s1";
  client_id = codes "agent";
  client_redirect_uri = codes "cb";
  client_state = codes "x";
  code_challenge = codes "!v";
  code_challenge_method = codes "S256";
  code_hash = some (codes "#c1");
  subject = some (codes "ann");
  identity_type = some (codes "user");
  tenant_id = some (codes "t1");
  scopes = some (codes "memory:read" ∷ []);
  status = ready;
  expires_at = 100;
  used_at = none;
}

abbrev old_token : RefreshToken
old_token = record {
  token_hash = codes "#r1";
  client_id = codes "agent";
  subject = codes "ann";
  scopes = codes "memory:read" ∷ [];
  tenant_id = codes "t1";
  expires_at = 100;
  revoked = false;
  revoked_at = none;
}

abbrev db : Db
db = record {
  clients = agent ∷ [];
  refresh_tokens = old_token ∷ [];
  auth_sessions = open_session ∷ [];
}

abbrev blank : TokenRequest
blank = record {
  grant_type = [];
  client_id = some (codes "agent");
  client_secret = none;
  scope = none;
  refresh_token = none;
  code = none;
  redirect_uri = none;
  code_verifier = none;
  subject_token = none;
  subject_token_type = none;
}

abbrev code_request : TokenRequest
code_request = record blank {
  grant_type = codes "authorization_code";
  code = some (codes "c1");
  redirect_uri = some (codes "cb");
  code_verifier = some (codes "v");
}

abbrev refresh_request : TokenRequest
refresh_request = record blank {
  grant_type = codes "refresh_token";
  refresh_token = some (codes "r1");
}

abbrev at : ℕ → Env
at t = record { now = t; fresh_token = codes "r2" }

code_accepted :
    is_ok (transact (token_endpoint crypto settings platform (at 10) code_request) db).0 ≡ true
unfolding transact token_endpoint text_beq handle_authorization_code need given lift gets pure guard
    update_tokens update_sessions or_fail one_or_none lookup_client active_clients check_secret
    claim_and_redeem claim_code is_claimable use_sessions redeem verify_pkce issue add_refresh_token
    ◌>>=◌
code_accepted = refl

refresh_accepted :
    is_ok (transact (token_endpoint crypto settings platform (at 10) refresh_request) db).0 ≡ true
unfolding transact token_endpoint text_beq handle_refresh_token need given lift gets pure guard
    update_tokens or_fail one_or_none lookup_client active_clients check_secret find_and_rotate
    find_refresh_token is_live rotate revoke revoke_in issue add_refresh_token ◌>>=◌
refresh_accepted = refl

code_used_once_example :
    is_ok
      (transact (token_endpoint crypto settings platform (at 20) code_request) (
        run crypto settings platform
          (step crypto settings platform db (token (at 10) code_request))
          (cleanup 15 ∷ []))).0
    ≡ false
unfolding given
code_used_once_example =
    code_used_once crypto settings platform (at 10) (at 20) code_request code_request (codes "c1")
      (codes "c1") db (cleanup 15 ∷ []) refl refl refl refl refl (tt, tt) code_accepted

refresh_used_once_example :
    is_ok
      (transact (token_endpoint crypto settings platform (at 20) refresh_request) (
        run crypto settings platform
          (step crypto settings platform db (token (at 10) refresh_request))
          (cleanup 15 ∷ []))).0
    ≡ false
unfolding given
refresh_used_once_example =
    refresh_used_once crypto settings platform (at 10) (at 20) refresh_request refresh_request
      (codes "r1") (codes "r1") db (cleanup 15 ∷ []) refl refl refl refl refl refresh_accepted

abbrev granted : TokenResponse
granted = record {
  access_token = codes "jwt";
  expires_in = 60;
  refresh_token = some (codes "r2");
  scope = codes "memory:read";
}

granted_there :
    (handle_client_credentials crypto settings
      (at 10)
      (some (codes "agent"))
      (some (codes "pw"))
      (some (codes "memory:read"))
      db).0
    ≡ ok granted
unfolding text_beq handle_client_credentials need given lift gets pure guard update_tokens or_fail
    one_or_none lookup_client active_clients authenticate_client add_refresh_token issue ◌>>=◌
    resolve_scopes scope_list sorted to_set words join
granted_there = refl

client_credentials-IsGranted_example :
    IsGranted crypto settings
      (at 10)
      (some (codes "agent"))
      (some (codes "pw"))
      (some (codes "memory:read"))
      db
      granted
client_credentials-IsGranted_example =
    client_credentials-IsGranted crypto settings (at 10) (some (codes "agent")) (some (codes "pw"))
      (some (codes "memory:read")) db granted granted_there
