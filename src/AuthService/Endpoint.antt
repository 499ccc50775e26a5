-- ===== src/AuthService/Endpoint.antt =====
-- routes/token.py (dispatch and token exchange), routes/authorize.py, routes/openshift_callback.py
-- and session_cleanup.py: the requests, and histories of them.
use memory_hub.Base.{
  ℕ, ◌+◌, Text, Bool, true, false, not, ◌&&◌, ◌||◌, Option, none, some, List, [], ◌∷◌, map, ◌==◌,
  text_eq, nat_eq, contains, keep, any, length, if◌then◌else◌, codes, ltb, leb, join, split,
}
use memory_hub.AuthService.{
  pending, ready, OAuthClient, AuthSession, Db, oauth_error, integrity_error,
  unsupported_grant_type, unsupported_response_type, temporarily_unavailable, Settings, Crypto,
}
use memory_hub.AuthService.Tx.{
  Result, err, Tx, pure, raise, lift, gets, update_sessions, guard, ◌>>=◌, ◌>>◌, one_or_none,
  or_fail, transact,
}
use memory_hub.AuthService.Grants.{
  Env, TokenResponse, need, given, bad_request, lookup_client, resolve_scopes, active_clients,
  handle_client_credentials, handle_refresh_token, handle_authorization_code,
}

pub record TokenRequest : Type 0 where
  pub grant_type : Text
  pub client_id : Option Text
  pub client_secret : Option Text
  pub scope : Option Text
  pub refresh_token : Option Text
  pub code : Option Text
  pub redirect_uri : Option Text
  pub code_verifier : Option Text
  pub subject_token : Option Text
  pub subject_token_type : Option Text

-- What Kubernetes and OpenShift answer: the user name of a token that is valid, the tenant of a
-- namespace, and the user behind a broker's code, once the membership of the group is checked.
pub record Platform : Type 0 where
  pub validate_subject_token : Text → Result Text
  pub resolve_tenant : Text → Text
  pub resolve_user : Text → Result Text

unfoldable pub drop_prefix : Text → Text → Option Text
drop_prefix [] t = some t
drop_prefix (c ∷ cs) [] = none
drop_prefix (c ∷ cs) (d ∷ t) = if c == d then drop_prefix cs t else none

-- `^system:serviceaccount:([^:]+):([^:]+)$`: two parts that are not empty and have no colon.
abbrev pub two_parts : List Text → Option (Text × Text)
two_parts ((a ∷ ns) ∷ (b ∷ name) ∷ []) = some (a ∷ ns, b ∷ name)
two_parts _ = none

unfoldable pub parse_service_account : Text → Result (Text × Text)
unfolding drop_prefix
parse_service_account username = elim (drop_prefix (codes "system:serviceaccount:") username) [
  | none ↦ err bad_request
  | some rest ↦ or_fail (two_parts (split b':' rest)) bad_request
]

abbrev pub jwt_type : Text
jwt_type = codes "urn:ietf:params:oauth:token-type:jwt"

unfoldable pub jwt_or_nothing : Option Text → Bool
jwt_or_nothing value = elim (given value) [ none ↦ true | some t ↦ t == jwt_type ]

module _ (crypto : Crypto) (settings : Settings) (platform : Platform) (env : Env) where
  open crypto use {encode}

  -- The exchange gives no refresh token and writes no table.
  unfoldable pub handle_token_exchange :
      Option Text → Option Text → Option Text → Option Text → Tx TokenResponse
  handle_token_exchange client_id subject_token subject_token_type scope = do
    guard settings.token_exchange_enabled (oauth_error 400 unsupported_grant_type)
    id ← need client_id
    token ← need subject_token
    guard (jwt_or_nothing subject_token_type) bad_request
    username ← lift (platform.validate_subject_token token)
    account ← lift (parse_service_account username)
    client ← lookup_client id
    scopes ← lift (resolve_scopes scope client)
    pure (record {
      access_token = encode (record {
        subject = some username;
        identity_type = some client.identity_type;
        tenant_id = some (platform.resolve_tenant account.0);
        scopes = scopes;
      });
      expires_in = settings.access_token_ttl;
      refresh_token = none;
      scope = join (codes " ") scopes;
    })

  unfoldable pub token_endpoint : TokenRequest → Tx TokenResponse
  token_endpoint r =
      if r.grant_type == codes "client_credentials"
      then handle_client_credentials crypto settings env r.client_id r.client_secret r.scope
      else if r.grant_type == codes "refresh_token"
      then handle_refresh_token crypto settings env r.client_id r.client_secret r.refresh_token
      else if r.grant_type == codes "authorization_code"
      then handle_authorization_code crypto settings env r.client_id r.client_secret r.code
          r.redirect_uri r.code_verifier
      else if r.grant_type == codes "urn:ietf:params:oauth:grant-type:token-exchange"
      then handle_token_exchange r.client_id r.subject_token r.subject_token_type r.scope
      else raise (oauth_error 400 unsupported_grant_type)

abbrev pub is_base64url : ℕ → Bool
is_base64url c =
    (leb b'A' c && leb c b'Z')
    || (leb b'a' c && leb c b'z')
    || (leb b'0' c && leb c b'9')
    || c == b'_'
    || c == b'-'

-- `$` in the pattern also lets one newline at the end pass.
unfoldable pub base64url_line : Text → Bool
base64url_line [] = false
base64url_line (c ∷ []) = is_base64url c
base64url_line (c ∷ d ∷ []) = is_base64url c && (is_base64url d || d == 10)
base64url_line (c ∷ d ∷ e ∷ rest) = is_base64url c && base64url_line (d ∷ e ∷ rest)

unfoldable pub validate_code_challenge : Text → Tx (Unit {0})
validate_code_challenge value = do
  guard (base64url_line value) bad_request
  guard (not (ltb (length value) 43 || ltb 128 (length value))) bad_request

pub record AuthorizeRequest : Type 0 where
  pub response_type : Text
  pub client_id : Text
  pub redirect_uri : Text
  pub code_challenge : Text
  pub code_challenge_method : Text
  pub state : Text

abbrev pub registered : OAuthClient → List Text
registered client = elim client.redirect_uris [ none ↦ [] | some uris ↦ uris ]

module _ (settings : Settings) (now : ℕ) where
  unfoldable pub pending_session : Text → AuthorizeRequest → AuthSession
  pending_session session_id r = record {
    session_id = session_id;
    client_id = r.client_id;
    client_redirect_uri = r.redirect_uri;
    client_state = r.state;
    code_challenge = r.code_challenge;
    code_challenge_method = r.code_challenge_method;
    code_hash = none;
    subject = none;
    identity_type = none;
    tenant_id = none;
    scopes = none;
    status = pending;
    expires_at = now + settings.auth_session_pending_ttl;
    used_at = none;
  }

  -- Returns the `state` of the redirect to OpenShift, which is the new session's id.
  unfoldable pub authorize_endpoint : Text → AuthorizeRequest → Tx Text
  authorize_endpoint session_id r = do
    guard (r.response_type == codes "code") (oauth_error 400 unsupported_response_type)
    guard (r.code_challenge_method == codes "S256") bad_request
    validate_code_challenge r.code_challenge
    rows ← gets (active_clients r.client_id)
    found ← lift (one_or_none rows)
    client ← lift (or_fail found bad_request)
    guard (contains (registered client) r.redirect_uri) bad_request
    lift (
        or_fail (given (some settings.openshift_oauth_authorize_url))
          (oauth_error 503 temporarily_unavailable))
    taken ← gets (λ db. any (λ s. s.session_id == session_id) db.auth_sessions)
    guard (not taken) integrity_error
    update_sessions (◌∷◌ (pending_session session_id r))
    pure session_id

  abbrev pub is_pending : AuthSession → Bool
  is_pending s = elim s.status [ pending ↦ true | _ ↦ false ]

  unfoldable pub make_ready : Text → Text → Text → AuthSession → AuthSession
  make_ready state code_hash username s =
      if s.session_id == state
      then record s {
        code_hash = some code_hash;
        subject = some username;
        identity_type = some (codes "user");
        tenant_id = some settings.default_tenant_id;
        scopes = some settings.default_human_scopes;
        status = ready;
        expires_at = now + settings.auth_session_ready_ttl;
      }
      else s

  -- `raw_code` is the fresh authorization code; the redirect carries it to the client.
  unfoldable pub openshift_callback : Crypto → Platform → Text → Text → Text → Tx (Text × Text)
  openshift_callback crypto platform raw_code code state = do
    rows ← gets (λ db. keep (λ s. s.session_id == state && is_pending s) db.auth_sessions)
    found ← lift (one_or_none rows)
    s ← lift (or_fail found bad_request)
    guard (not (ltb s.expires_at now)) bad_request
    username ← lift (platform.resolve_user code)
    update_sessions (map (make_ready state (crypto.sha256_hex raw_code) username))
    pure (raw_code, s.client_state)

abbrev pub unexpired : ℕ → AuthSession → Bool
unexpired now s = not (ltb s.expires_at now)

-- Returns the number of rows that were deleted.
unfoldable pub cleanup_expired_sessions : ℕ → Tx ℕ
cleanup_expired_sessions now = do
  expired ← gets (λ db. keep (λ s. ltb s.expires_at now) db.auth_sessions)
  update_sessions (keep (unexpired now))
  pure (length expired)

-- A request, with the clock and the random values that it meets.
pub data Call : Type 0 where
  token : Env → TokenRequest → Call
  authorize : ℕ → Text → AuthorizeRequest → Call
  callback : ℕ → Text → Text → Text → Call
  cleanup : ℕ → Call

module _ (crypto : Crypto) (settings : Settings) (platform : Platform) where
  unfoldable pub step : Db → Call → Db
  step db (token env r) = (transact (token_endpoint crypto settings platform env r) db).1
  step db (authorize now session_id r) =
      (transact (authorize_endpoint settings now session_id r) db).1
  step db (callback now raw_code code state) =
      (transact (openshift_callback settings now crypto platform raw_code code state) db).1
  step db (cleanup now) = (transact (cleanup_expired_sessions now) db).1

  unfoldable pub run : Db → List Call → Db
  run db [] = db
  run db (c ∷ cs) = run (step db c) cs
