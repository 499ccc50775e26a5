-- ===== src/AuthService.antt =====
-- memoryhub-auth/src: the tables of the authorization server and the sessions that change them.
-- What the handlers take from elsewhere is a parameter: the digests, bcrypt, the signing of tokens,
-- the answers of Kubernetes and OpenShift, the clock and fresh random values.
pub mod Tx
pub mod Grants
pub mod Endpoint
mod Frames
mod Spent
pub mod CodeOnce
pub mod Revoked
pub mod Rotation
mod Tests
pub mod ScopeLimits
mod Granted
use memory_hub.Base.{ℕ, Text, Bool, Option, List}

-- The status column holds one of the three texts that the code writes.
pub data Status : Type 0 where
  pending ready used : Status

pub record OAuthClient : Type 0 where
  pub client_id : Text
  pub client_secret_hash : Text
  pub identity_type : Text
  pub tenant_id : Text
  pub default_scopes : List Text
  pub active : Bool
  pub redirect_uris : Option (List Text)
  pub public : Bool

pub record RefreshToken : Type 0 where
  pub token_hash : Text
  pub client_id : Text
  pub subject : Text
  pub scopes : List Text
  pub tenant_id : Text
  pub expires_at : ℕ
  pub revoked : Bool
  pub revoked_at : Option ℕ

pub record AuthSession : Type 0 where
  pub session_id : Text
  pub client_id : Text
  pub client_redirect_uri : Text
  pub client_state : Text
  pub code_challenge : Text
  pub code_challenge_method : Text
  pub code_hash : Option Text
  pub subject : Option Text
  pub identity_type : Option Text
  pub tenant_id : Option Text
  pub scopes : Option (List Text)
  pub status : Status
  pub expires_at : ℕ
  pub used_at : Option ℕ

pub record Db : Type 0 where
  pub clients : List OAuthClient
  pub refresh_tokens : List RefreshToken
  pub auth_sessions : List AuthSession

-- The `error` of an `OAuthError`; its description is left out.
pub data ErrorCode : Type 0 where
  invalid_request invalid_client invalid_grant invalid_scope : ErrorCode
  unsupported_grant_type unsupported_response_type temporarily_unavailable : ErrorCode
  server_error access_denied : ErrorCode

-- An `OAuthError` with its HTTP status, or an exception of the database layer.
pub data Failure : Type 0 where
  oauth_error : ℕ → ErrorCode → Failure
  multiple_results : Failure
  integrity_error : Failure

pub record Settings : Type 0 where
  pub access_token_ttl : ℕ
  pub refresh_token_ttl : ℕ
  pub auth_session_pending_ttl : ℕ
  pub auth_session_ready_ttl : ℕ
  pub token_exchange_enabled : Bool
  pub default_tenant_id : Text
  pub default_human_scopes : List Text
  pub openshift_oauth_authorize_url : Text

-- The claims of an access token that the server chooses; `encode` adds the times and signs them.
pub record AccessClaims : Type 0 where
  pub subject : Option Text
  pub identity_type : Option Text
  pub tenant_id : Option Text
  pub scopes : List Text

pub record Crypto : Type 0 where
  pub sha256_hex : Text → Text
  pub checkpw : Text → Text → Bool
  pub s256_challenge : Text → Text
  pub encode : AccessClaims → Text
