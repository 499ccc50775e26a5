-- ===== src/AuthService/Grants.antt =====
-- routes/token.py: the four grants of the token endpoint.
use memory_hub.Base.{
  ℕ, ◌+◌, Text, Bool, true, false, not, ◌&&◌, Option, none, some, List, [], ◌∷◌, map, ◌==◌, text_eq,
  contains, keep, all, any, if◌then◌else◌, codes, ltb, join, sorted, text_leb, words, to_set,
}
use memory_hub.AuthService.{
  ready, used, OAuthClient, RefreshToken, AuthSession, Db, Failure, oauth_error, integrity_error,
  invalid_request, invalid_client, invalid_grant, invalid_scope, Settings, AccessClaims, Crypto,
}
use memory_hub.AuthService.Tx.{
  Result, ok, err, Tx, pure, lift, gets, update_tokens, update_sessions, guard, ◌>>=◌, ◌>>◌,
  one_or_none, or_fail,
}

-- `if not value:` for an optional text.
unfoldable pub given : Option Text → Option Text
given none = none
given (some []) = none
given (some (c ∷ cs)) = some (c ∷ cs)

abbrev pub bad_request : Failure
bad_request = oauth_error 400 invalid_request

abbrev pub unknown_client : Failure
unknown_client = oauth_error 401 invalid_client

unfoldable pub need : Option Text → Tx Text
need value = lift (or_fail (given value) bad_request)

unfoldable pub active_clients : Text → Db → List OAuthClient
active_clients id db = keep (λ c. c.client_id == id && c.active) db.clients

unfoldable pub lookup_client : Text → Tx OAuthClient
lookup_client id = do
  rows ← gets (active_clients id)
  found ← lift (one_or_none rows)
  lift (or_fail found unknown_client)

abbrev pub ascii : Text → Bool
ascii = all (λ c. ltb c 128)

module _ (crypto : Crypto) where
  open crypto use {sha256_hex, checkpw, s256_challenge, encode}

  unfoldable pub authenticate_client : Text → Text → Tx OAuthClient
  authenticate_client id secret = do
    client ← lookup_client id
    guard (checkpw secret client.client_secret_hash) unknown_client
    pure client

  -- Public clients have no secret to show.
  unfoldable pub check_secret : OAuthClient → Option Text → Tx (Unit {0})
  check_secret client secret =
      if client.public
      then pure tt
      else do s ← need secret; guard (checkpw s client.client_secret_hash) unknown_client

  unfoldable pub verify_pkce : Text → Text → Bool
  verify_pkce code_verifier code_challenge =
      if ascii code_verifier then s256_challenge code_verifier == code_challenge else false

abbrev pub all_in : List Text → List Text → Bool
all_in xs ys = all (contains ys) xs

-- `sorted(set(scopes))`
unfoldable pub scope_list : List Text → List Text
scope_list scopes = sorted text_leb (to_set scopes)

unfoldable pub resolve_scopes : Option Text → OAuthClient → Result (List Text)
resolve_scopes requested client = elim (given requested) [
  | none ↦ ok (scope_list client.default_scopes)
  | some r ↦
      if all_in (words r) client.default_scopes
      then ok (scope_list (words r))
      else err (oauth_error 400 invalid_scope)
]

-- The clock and the random values of a request. The clock is read several times and does not move
-- within a request.
pub record Env : Type 0 where
  pub now : ℕ
  pub fresh_token : Text

pub record TokenResponse : Type 0 where
  pub access_token : Text
  pub expires_in : ℕ
  pub refresh_token : Option Text
  pub scope : Text

-- `token_hash` is unique in its table.
unfoldable pub add_refresh_token : RefreshToken → Tx (Unit {0})
add_refresh_token rt = do
  taken ← gets (λ db. any (λ r. r.token_hash == rt.token_hash) db.refresh_tokens)
  guard (not taken) integrity_error
  update_tokens (◌∷◌ rt)

-- `WHERE token_hash = :hash AND revoked = false AND expires_at > now`
unfoldable pub is_live : Text → ℕ → RefreshToken → Bool
is_live hash now rt = rt.token_hash == hash && not rt.revoked && ltb now rt.expires_at

unfoldable pub revoke_in : Text → ℕ → List RefreshToken → List RefreshToken
revoke_in hash now =
    map λ rt.
      if rt.token_hash == hash then record rt { revoked = true; revoked_at = some now } else rt

unfoldable pub revoke : Text → ℕ → Tx (Unit {0})
revoke hash now = update_tokens (revoke_in hash now)

abbrev pub is_ready : AuthSession → Bool
is_ready s = elim s.status [ ready ↦ true | _ ↦ false ]

-- `WHERE code_hash = :hash AND status = 'ready'`, where a NULL matches nothing.
unfoldable pub is_claimable : Text → AuthSession → Bool
is_claimable hash s = elim s.code_hash [ none ↦ false | some h ↦ h == hash ] && is_ready s

unfoldable pub use_sessions : Text → ℕ → List AuthSession → List AuthSession
use_sessions hash now =
    map λ s. if is_claimable hash s then record s { status = used; used_at = some now } else s

-- `UPDATE ... SET status = 'used' WHERE ... RETURNING`, in one statement.
unfoldable pub claim_code : Text → ℕ → Tx (List AuthSession)
claim_code hash now = do
  claimed ← gets (λ db. keep (is_claimable hash) db.auth_sessions)
  update_sessions (use_sessions hash now)
  pure claimed

module _ (crypto : Crypto) (settings : Settings) (env : Env) where
  open crypto use {sha256_hex, encode}

  abbrev pub respond : AccessClaims → TokenResponse
  respond claims = record {
    access_token = encode claims;
    expires_in = settings.access_token_ttl;
    refresh_token = some env.fresh_token;
    scope = join (codes " ") claims.scopes;
  }

  -- The new refresh token, and the access token for the same subject.
  unfoldable pub issue : Text → AccessClaims → Text → Text → Tx TokenResponse
  issue client_id claims subject tenant_id = do
    add_refresh_token (record {
      token_hash = sha256_hex env.fresh_token;
      client_id = client_id;
      subject = subject;
      scopes = claims.scopes;
      tenant_id = tenant_id;
      expires_at = env.now + settings.refresh_token_ttl;
      revoked = false;
      revoked_at = none;
    })
    pure (respond claims)

  unfoldable pub handle_client_credentials :
      Option Text → Option Text → Option Text → Tx TokenResponse
  handle_client_credentials client_id client_secret scope = do
    id ← need client_id
    secret ← need client_secret
    client ← authenticate_client crypto id secret
    scopes ← lift (resolve_scopes scope client)
    issue client.client_id
        (record {
          subject = some client.client_id;
          identity_type = some client.identity_type;
          tenant_id = some client.tenant_id;
          scopes = scopes;
        })
        client.client_id client.tenant_id

  unfoldable pub find_refresh_token : Text → Tx RefreshToken
  find_refresh_token hash = do
    rows ← gets (λ db. keep (is_live hash env.now) db.refresh_tokens)
    found ← lift (one_or_none rows)
    lift (or_fail found (oauth_error 401 invalid_grant))

  unfoldable pub rotate : OAuthClient → RefreshToken → Tx TokenResponse
  rotate client stored = do
    guard (stored.client_id == client.client_id) (oauth_error 401 invalid_grant)
    revoke stored.token_hash env.now
    issue client.client_id
        (record {
          subject = some stored.subject;
          identity_type = some client.identity_type;
          tenant_id = some stored.tenant_id;
          scopes = stored.scopes;
        })
        stored.subject stored.tenant_id

  unfoldable pub find_and_rotate : OAuthClient → Text → Tx TokenResponse
  find_and_rotate client hash = do stored ← find_refresh_token hash; rotate client stored

  unfoldable pub handle_refresh_token : Option Text → Option Text → Option Text → Tx TokenResponse
  handle_refresh_token client_id client_secret refresh_token = do
    id ← need client_id
    raw ← need refresh_token
    client ← lookup_client id
    check_secret crypto client client_secret
    find_and_rotate client (sha256_hex raw)

  abbrev pub scopes_or_empty : Option (List Text) → List Text
  scopes_or_empty none = []
  scopes_or_empty (some s) = s

  -- What the claimed session must agree with.
  unfoldable pub redeem : Text → Text → Text → AuthSession → Tx TokenResponse
  redeem client_id redirect_uri code_verifier s = do
    guard (not (ltb s.expires_at env.now)) (oauth_error 400 invalid_grant)
    guard (s.client_id == client_id) (oauth_error 400 invalid_grant)
    guard (s.client_redirect_uri == redirect_uri) (oauth_error 400 invalid_grant)
    guard (verify_pkce crypto code_verifier s.code_challenge) (oauth_error 400 invalid_grant)
    -- the columns `subject` and `tenant_id` of a refresh token are not nullable
    subject ← lift (or_fail s.subject integrity_error)
    tenant ← lift (or_fail s.tenant_id integrity_error)
    issue client_id
        (record {
          subject = some subject;
          identity_type = s.identity_type;
          tenant_id = some tenant;
          scopes = scopes_or_empty s.scopes;
        })
        subject tenant

  unfoldable pub claim_and_redeem : Text → Text → Text → Text → Tx TokenResponse
  claim_and_redeem client_id redirect_uri code_verifier code_hash = do
    claimed ← claim_code code_hash env.now
    found ← lift (one_or_none claimed)
    s ← lift (or_fail found (oauth_error 400 invalid_grant))
    redeem client_id redirect_uri code_verifier s

  unfoldable pub handle_authorization_code :
      Option Text → Option Text → Option Text → Option Text → Option Text → Tx TokenResponse
  handle_authorization_code client_id client_secret code redirect_uri code_verifier = do
    id ← need client_id
    raw ← need code
    uri ← need redirect_uri
    verifier ← need code_verifier
    client ← lookup_client id
    check_secret crypto client client_secret
    claim_and_redeem id uri verifier (sha256_hex raw)
