-- ===== src/AuthService/CodeOnce.antt =====
-- The exchange of an authorization code (routes/token.py).
use memory_hub.Base.{
  ℕ, Text, true, false, Option, some, List, [], ◌∷◌, text_eq, keep, any, codes, ◌≡◌, refl, subst,
  text_beq, sym, arith, All,
}
use memory_hub.AuthService.{AuthSession, Db, Settings, Crypto}
use memory_hub.AuthService.Tx.{
  ok, Tx, pure, lift, gets, update_sessions, ◌>>=◌, one_or_none, or_fail, transact, is_ok,
  Preserves, Achieves, Achieves-early, Achieves-late, Achieves-lift, Achieves-transact, Refuses,
  Refuses-lift, Refuses-bind, Refuses-transact, preserves_rules,
}
use memory_hub.AuthService.Grants.{
  Env, TokenResponse, need, is_claimable, claim_code, given, bad_request, claim_and_redeem, redeem,
  handle_authorization_code,
}
use memory_hub.AuthService.Endpoint.{TokenRequest, Platform, Call, token, token_endpoint, step, run}
use memory_hub.AuthService.Spent.{
  IsSpent, IsFresh, used-spent, run-IsSpent, add_refresh_token-IsSpent,
}
use memory_hub.AuthService.Frames.{
  Preserves-need, Preserves-lookup_client, Preserves-check_secret, Preserves-redeem,
}

module _ (crypto : Crypto) (settings : Settings) (env : Env) where
  claim_code-once : (h : Text) (now : ℕ) → Achieves (IsSpent h) (claim_code h now)
  unfolding claim_code gets update_sessions pure ◌>>=◌
  claim_code-once h now = record {
    at = λ db e. record { none_ready = used-spent h now db.auth_sessions };
  }

  claimed :
      (id uri verifier h : Text)
      → Achieves (IsSpent h) (claim_and_redeem crypto settings env id uri verifier h)
  unfolding claim_and_redeem
  claimed id uri verifier h =
      Achieves-early (claim_code h env.now) _ (claim_code-once h env.now)
        (λ claimed. search (preserves_rules, redeems) depth 20)
    where
      redeems :
          (s : AuthSession) → Preserves (IsSpent h) (redeem crypto settings env id uri verifier s)
      redeems s =
          Preserves-redeem crypto settings env (add_refresh_token-IsSpent h) id uri verifier s

  nothing_claimed :
      (h : Text) (xs : List AuthSession)
      → any (is_claimable h) xs ≡ false
      → keep (is_claimable h) xs ≡ []
  nothing_claimed h [] e = refl
  nothing_claimed h (x ∷ xs) e = ground (arith, nothing_claimed h xs)

  IsSpent-refused :
      (id uri verifier h : Text)
      → Refuses (IsSpent h) (claim_and_redeem crypto settings env id uri verifier h)
  unfolding claim_and_redeem claim_code gets update_sessions pure lift ◌>>=◌ one_or_none or_fail
  IsSpent-refused id uri verifier h = record {
    at = λ db s. rw (nothing_claimed h db.auth_sessions s.none_ready) refl;
  }

  -- `need` gives the text itself.
  need_value :
      (v : Option Text) (raw a : Text)
      → given v ≡ some raw
      → or_fail (given v) bad_request ≡ ok a
      → raw ≡ a
  unfolding or_fail
  need_value v raw a e h = ground arith

  module _ (r : TokenRequest) (raw : Text) (code : given r.code ≡ some raw) where
    abbrev exchange : Tx TokenResponse
    exchange =
        handle_authorization_code crypto settings env r.client_id r.client_secret r.code
          r.redirect_uri r.code_verifier

    abbrev IsUsedUp : Db → Type 0
    IsUsedUp = IsSpent (crypto.sha256_hex raw)

    exchange_spends : Achieves IsUsedUp exchange
    unfolding handle_authorization_code need
    exchange_spends = Achieves-late _ _ λ id. Achieves-lift _ _ λ raw' e. Achieves-late _ _ λ uri.
        Achieves-late _ _ λ verifier. Achieves-late _ _ λ client. Achieves-late _ _ λ _.
          subst
            (λ t.
              Achieves IsUsedUp
                (claim_and_redeem crypto settings env id uri verifier (crypto.sha256_hex t)))
            (need_value r.code raw raw' code e) (claimed id uri verifier (crypto.sha256_hex raw))

    abbrev IsCodeGrant : Type 0
    IsCodeGrant = r.grant_type ≡ codes "authorization_code"

    module _ (platform : Platform) (grant : IsCodeGrant) where
      code_grant : token_endpoint crypto settings platform env r ≡ exchange
      unfolding token_endpoint text_beq
      code_grant = rw grant refl

      used_code_refused :
          (db : Db)
          → IsUsedUp db
          → is_ok (transact (token_endpoint crypto settings platform env r) db).0 ≡ false
      unfolding handle_authorization_code need
      used_code_refused db s = rw code_grant (
          Refuses-transact exchange
            (Refuses-bind _ _ (Preserves-need r.client_id) λ id. Refuses-lift _ _ λ raw' e.
              Refuses-bind _ _ (Preserves-need r.redirect_uri) λ uri.
                Refuses-bind _ _ (Preserves-need r.code_verifier) λ verifier.
                  Refuses-bind _ _ (Preserves-lookup_client id) λ client.
                    Refuses-bind _ _ (Preserves-check_secret crypto client r.client_secret) λ _.
                      subst
                        (λ t. Refuses IsUsedUp (
                          claim_and_redeem crypto settings env id uri verifier
                            (crypto.sha256_hex t)))
                        (need_value r.code raw raw' code e)
                        (IsSpent-refused id uri verifier (crypto.sha256_hex raw)))
            db s)

-- Once a code has been exchanged for tokens, no later request with a code of the same digest gets
-- any, whoever sends it: not after any history of token requests, authorizations, callbacks and
-- cleanups, provided that no callback of that history draws a code of that digest again.
pub code_used_once :
    (crypto : Crypto) (settings : Settings) (platform : Platform) (env later_env : Env)
    (first second : TokenRequest) (raw again : Text) (db : Db) (between : List Call)
    → first.grant_type ≡ codes "authorization_code"
    → second.grant_type ≡ codes "authorization_code"
    → given first.code ≡ some raw
    → given second.code ≡ some again
    → crypto.sha256_hex again ≡ crypto.sha256_hex raw
    → All (IsFresh crypto (crypto.sha256_hex raw)) between
    → is_ok (transact (token_endpoint crypto settings platform env first) db).0 ≡ true
    → let after =
        run crypto settings platform (step crypto settings platform db (token env first)) between in
      is_ok (transact (token_endpoint crypto settings platform later_env second) after).0 ≡ false
unfolding step
code_used_once crypto settings platform env later_env first second raw again db between g h c d same
      fresh done =
    used_code_refused crypto settings later_env second again d platform h _ (
      subst
        (λ t. IsSpent t (
          run crypto settings platform (step crypto settings platform db (token env first))
            between))
        (sym same)
        (run-IsSpent (crypto.sha256_hex raw) crypto settings platform _ between fresh (
          subst
            (λ m.
              is_ok (transact m db).0 ≡ true → IsSpent (crypto.sha256_hex raw) (transact m db).1)
            (sym (code_grant crypto settings env first raw c platform g))
            (Achieves-transact _ (exchange_spends crypto settings env first raw c) db) done)))
