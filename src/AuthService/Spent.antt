-- ===== src/AuthService/Spent.antt =====
-- The calls of the server and an authorization code that has been used.
use memory_hub.Base.{
  ℕ, Text, Bool, false, List, [], ◌∷◌, map, text_eq, ==_iff, keep, any, ◌≡◌, ◌≢◌, refl, arith, All,
}
use memory_hub.AuthService.{RefreshToken, AuthSession, Db, Settings, Crypto}
use memory_hub.AuthService.Tx.{
  update_tokens, update_sessions, Preserves, Preserves-transact, preserves_rules,
}
use memory_hub.AuthService.Grants.{
  Env, add_refresh_token, revoke, is_claimable, use_sessions, claim_code,
}
use memory_hub.AuthService.Endpoint.{
  TokenRequest, Platform, Call, token, authorize, callback, cleanup, token_endpoint,
  authorize_endpoint, make_ready, openshift_callback, validate_code_challenge, AuthorizeRequest,
  pending_session, cleanup_expired_sessions, step, run,
}
use memory_hub.AuthService.Frames.{Preserves-token_endpoint}

-- No session can be claimed with this code.
pub record IsSpent (hash : Text) (db : Db) : Type 0 where
  pub none_ready : any (is_claimable hash) db.auth_sessions ≡ false

module _ (h : Text) where
  tokens-IsSpent :
      (f : List RefreshToken → List RefreshToken) → Preserves (IsSpent h) (update_tokens f)
  unfolding update_tokens
  tokens-IsSpent f = record { at = λ db s. record { none_ready = s.none_ready } }

  sessions-IsSpent :
      (f : List AuthSession → List AuthSession)
      → ((xs : List AuthSession)
          → any (is_claimable h) xs ≡ false
          → any (is_claimable h) (f xs) ≡ false)
      → Preserves (IsSpent h) (update_sessions f)
  unfolding update_sessions
  sessions-IsSpent f k = record {
    at = λ db s. record { none_ready = k db.auth_sessions s.none_ready };
  }

  use-spent :
      (hash : Text) (now : ℕ) (xs : List AuthSession)
      → any (is_claimable h) xs ≡ false
      → any (is_claimable h) (use_sessions hash now xs) ≡ false
  unfolding use_sessions is_claimable
  use-spent hash now [] e = refl
  use-spent hash now (x ∷ xs) e = ground (arith, use-spent hash now xs)

  pub used-spent :
      (now : ℕ) (xs : List AuthSession) → any (is_claimable h) (use_sessions h now xs) ≡ false
  unfolding use_sessions is_claimable
  used-spent now [] = refl
  used-spent now (x ∷ xs) = ground (arith, used-spent now xs)

  keep-spent :
      (p : AuthSession → Bool) (xs : List AuthSession)
      → any (is_claimable h) xs ≡ false
      → any (is_claimable h) (keep p xs) ≡ false
  keep-spent p [] e = refl
  keep-spent p (x ∷ xs) e = ground (arith, keep-spent p xs)

  ready-spent :
      (settings : Settings) (now : ℕ) (state hash username : Text) (xs : List AuthSession)
      → hash ≢ h
      → any (is_claimable h) xs ≡ false
      → any (is_claimable h) (map (make_ready settings now state hash username) xs) ≡ false
  unfolding make_ready is_claimable
  ready-spent settings now state hash username [] other e = refl
  ready-spent settings now state hash username (x ∷ xs) other e =
      ground (arith, ==_iff hash h, ready-spent settings now state hash username xs other)

  pub add_refresh_token-IsSpent : (rt : RefreshToken) → Preserves (IsSpent h) (add_refresh_token rt)
  unfolding add_refresh_token
  add_refresh_token-IsSpent rt = search (preserves_rules, tokens-IsSpent)

  pub revoke-IsSpent : (hash : Text) (now : ℕ) → Preserves (IsSpent h) (revoke hash now)
  unfolding revoke
  revoke-IsSpent hash now = tokens-IsSpent _

  use_sessions-IsSpent :
      (hash : Text) (now : ℕ) → Preserves (IsSpent h) (update_sessions (use_sessions hash now))
  use_sessions-IsSpent hash now = sessions-IsSpent (use_sessions hash now) (use-spent hash now)

  keep_sessions-IsSpent :
      (p : AuthSession → Bool) → Preserves (IsSpent h) (update_sessions (keep p))
  keep_sessions-IsSpent p = sessions-IsSpent (keep p) (keep-spent p)

  pub claim_code-IsSpent : (hash : Text) (now : ℕ) → Preserves (IsSpent h) (claim_code hash now)
  unfolding claim_code
  claim_code-IsSpent hash now = search (preserves_rules, use_sessions-IsSpent)

-- The random code of a callback does not have the digest `h`.
abbrev pub IsFresh : Crypto → Text → Call → Type 0
IsFresh crypto h (callback now raw_code code state) = crypto.sha256_hex raw_code ≢ h
IsFresh crypto h _ = Unit

module _ (h : Text) (crypto : Crypto) (settings : Settings) (platform : Platform) where
  token_endpoint-IsSpent :
      (env : Env) (r : TokenRequest)
      → Preserves (IsSpent h) (token_endpoint crypto settings platform env r)
  token_endpoint-IsSpent env r =
      Preserves-token_endpoint crypto settings env (add_refresh_token-IsSpent h) (revoke-IsSpent h)
        (claim_code-IsSpent h) platform r

  pending_spent :
      (now : ℕ) (id : Text) (r : AuthorizeRequest) (xs : List AuthSession)
      → any (is_claimable h) xs ≡ false
      → any (is_claimable h) (pending_session settings now id r ∷ xs) ≡ false
  unfolding pending_session is_claimable
  pending_spent now id r xs e = e

  open_session-IsSpent :
      (now : ℕ) (id : Text) (r : AuthorizeRequest)
      → Preserves (IsSpent h) (update_sessions (◌∷◌ (pending_session settings now id r)))
  open_session-IsSpent now id r = sessions-IsSpent h _ (pending_spent now id r)

  authorize-IsSpent :
      (now : ℕ) (id : Text) (r : AuthorizeRequest)
      → Preserves (IsSpent h) (authorize_endpoint settings now id r)
  unfolding authorize_endpoint validate_code_challenge
  authorize-IsSpent now id r = search (preserves_rules, open_session-IsSpent) depth 30

  callback-IsSpent :
      (now : ℕ) (raw_code code state : Text)
      → crypto.sha256_hex raw_code ≢ h
      → Preserves (IsSpent h) (openshift_callback settings now crypto platform raw_code code state)
  unfolding openshift_callback
  callback-IsSpent now raw_code code state other =
      search
        (
          preserves_rules,
          λ (username : Text).
              sessions-IsSpent h
                (map (make_ready settings now state (crypto.sha256_hex raw_code) username))
                (λ xs.
                  ready-spent h settings now state (crypto.sha256_hex raw_code) username xs other),
        )
        depth 30

  cleanup-IsSpent : (now : ℕ) → Preserves (IsSpent h) (cleanup_expired_sessions now)
  unfolding cleanup_expired_sessions
  cleanup-IsSpent now = search (preserves_rules, keep_sessions-IsSpent)

  step-IsSpent :
      (db : Db) (c : Call)
      → IsFresh crypto h c
      → IsSpent h db
      → IsSpent h (step crypto settings platform db c)
  unfolding step
  step-IsSpent db (token env r) fresh s = Preserves-transact _ (token_endpoint-IsSpent env r) db s
  step-IsSpent db (authorize now id r) fresh s =
      Preserves-transact _ (authorize-IsSpent now id r) db s
  step-IsSpent db (callback now raw_code code state) fresh s =
      Preserves-transact _ (callback-IsSpent now raw_code code state fresh) db s
  step-IsSpent db (cleanup now) fresh s = Preserves-transact _ (cleanup-IsSpent now) db s

  pub run-IsSpent :
      (db : Db) (cs : List Call)
      → All (IsFresh crypto h) cs
      → IsSpent h db
      → IsSpent h (run crypto settings platform db cs)
  unfolding run
  run-IsSpent db [] fresh s = s
  run-IsSpent db (c ∷ cs) (f, fs) s =
      run-IsSpent (step crypto settings platform db c) cs fs (step-IsSpent db c f s)
