-- ===== src/AuthService/Revoked.antt =====
-- The calls of the server and a refresh token that has been revoked.
use memory_hub.Base.{
  ℕ, Text, Bool, true, false, not, ◌&&◌, List, [], ◌∷◌, ◌==◌, text_eq, ==_iff, any, ◌≡◌, ◌≢◌, refl,
  subst, ◌∙◌, arith, Bool-cases, inl, inr,
}
use memory_hub.AuthService.{RefreshToken, AuthSession, Db, Settings, Crypto}
use memory_hub.AuthService.Tx.{
  gets, update_tokens, update_sessions, guard, ◌>>=◌, Preserves, Preserves-transact,
  preserves_rules,
}
use memory_hub.AuthService.Grants.{add_refresh_token, revoke, revoke_in, claim_code}
use memory_hub.AuthService.Endpoint.{
  Platform, Call, token, authorize, callback, cleanup, authorize_endpoint, openshift_callback,
  validate_code_challenge, AuthorizeRequest, cleanup_expired_sessions, step, run,
}
use memory_hub.AuthService.Frames.{Preserves-token_endpoint}

abbrev pub has_hash : Text → RefreshToken → Bool
has_hash h rt = rt.token_hash == h

abbrev pub is_usable : Text → RefreshToken → Bool
is_usable h rt = rt.token_hash == h && not rt.revoked

-- The token is still in the table, and revoked.
pub record IsRevoked (h : Text) (db : Db) : Type 0 where
  pub present : any (has_hash h) db.refresh_tokens ≡ true
  pub dead : any (is_usable h) db.refresh_tokens ≡ false

module _ (h : Text) where
  pub revoke-present :
      (hash : Text) (now : ℕ) (xs : List RefreshToken)
      → any (has_hash h) (revoke_in hash now xs) ≡ any (has_hash h) xs
  unfolding revoke_in
  revoke-present hash now [] = refl
  revoke-present hash now (x ∷ xs) = ground (arith, revoke-present hash now xs)

  revoke-dead :
      (hash : Text) (now : ℕ) (xs : List RefreshToken)
      → any (is_usable h) xs ≡ false
      → any (is_usable h) (revoke_in hash now xs) ≡ false
  unfolding revoke_in
  revoke-dead hash now [] e = refl
  revoke-dead hash now (x ∷ xs) e = ground (arith, revoke-dead hash now xs)

  pub revoked_dead :
      (now : ℕ) (xs : List RefreshToken) → any (is_usable h) (revoke_in h now xs) ≡ false
  unfolding revoke_in
  revoked_dead now [] = refl
  revoked_dead now (x ∷ xs) = ground (arith, revoked_dead now xs)

  -- The table has each hash once, so what is added has another.
  pub adds : (rt : RefreshToken) → Preserves (IsRevoked h) (add_refresh_token rt)
  unfolding add_refresh_token gets guard update_tokens ◌>>=◌
  adds rt = record {
    at = λ db s. elim (Bool-cases (any (has_hash rt.token_hash) db.refresh_tokens)) [
      | inl taken ↦ rw taken s
      | inr free ↦ rw free (record {
        present = ground (arith, s.present);
        dead = ground (
          arith,
          s.present,
          s.dead,
          ==_iff rt.token_hash h,
          same_hash rt.token_hash db.refresh_tokens free s.present,
        );
      })
    ];
  }
    where
      same_hash :
          (t : Text) (xs : List RefreshToken)
          → any (has_hash t) xs ≡ false
          → any (has_hash h) xs ≡ true
          → t ≢ h
      same_hash t xs free there e = cc (subst (λ k. any (has_hash k) xs ≡ false) e free)

  revokes : (hash : Text) (now : ℕ) → Preserves (IsRevoked h) (revoke hash now)
  unfolding revoke update_tokens
  revokes hash now = record {
    at = λ db s. record {
      present = revoke-present hash now db.refresh_tokens ∙ s.present;
      dead = revoke-dead hash now db.refresh_tokens s.dead;
    };
  }

  sessions : (f : List AuthSession → List AuthSession) → Preserves (IsRevoked h) (update_sessions f)
  unfolding update_sessions
  sessions f = record { at = λ db s. record { present = s.present; dead = s.dead } }

  claims : (hash : Text) (now : ℕ) → Preserves (IsRevoked h) (claim_code hash now)
  unfolding claim_code
  claims hash now = search (preserves_rules, sessions)

module _ (h : Text) (crypto : Crypto) (settings : Settings) (platform : Platform) where
  authorize-revoked :
      (now : ℕ) (id : Text) (r : AuthorizeRequest)
      → Preserves (IsRevoked h) (authorize_endpoint settings now id r)
  unfolding authorize_endpoint validate_code_challenge
  authorize-revoked now id r = search (preserves_rules, sessions) depth 30

  callback-revoked :
      (now : ℕ) (raw_code code state : Text)
      → Preserves
          (IsRevoked h)
          (openshift_callback settings now crypto platform raw_code code state)
  unfolding openshift_callback
  callback-revoked now raw_code code state = search (preserves_rules, sessions) depth 30

  cleanup-revoked : (now : ℕ) → Preserves (IsRevoked h) (cleanup_expired_sessions now)
  unfolding cleanup_expired_sessions
  cleanup-revoked now = search (preserves_rules, sessions)

  step-revoked :
      (db : Db) (c : Call) → IsRevoked h db → IsRevoked h (step crypto settings platform db c)
  unfolding step
  step-revoked db (token env r) s =
      Preserves-transact _
        (Preserves-token_endpoint crypto settings env (adds h) (revokes h) (claims h) platform r) db
        s
  step-revoked db (authorize now id r) s = Preserves-transact _ (authorize-revoked now id r) db s
  step-revoked db (callback now raw_code code state) s =
      Preserves-transact _ (callback-revoked now raw_code code state) db s
  step-revoked db (cleanup now) s = Preserves-transact _ (cleanup-revoked now) db s

  pub run-revoked :
      (db : Db) (cs : List Call) → IsRevoked h db → IsRevoked h (run crypto settings platform db cs)
  unfolding run
  run-revoked db [] s = s
  run-revoked db (c ∷ cs) s =
      run-revoked (step crypto settings platform db c) cs (step-revoked db c s)
