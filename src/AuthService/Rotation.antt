-- ===== src/AuthService/Rotation.antt =====
-- The exchange of a refresh token (routes/token.py).
use memory_hub.Base.{
  Text, true, false, Option, some, List, [], ◌∷◌, ◌==◌, text_eq, ==_iff, keep, any, codes, ◌≡◌,
  refl, subst, text_beq, ◌∙◌, sym, arith, Bool-cases, inl, inr,
}
use memory_hub.AuthService.{OAuthClient, RefreshToken, Db, Settings, Crypto}
use memory_hub.AuthService.Tx.{
  ok, Tx, lift, gets, update_tokens, guard, ◌>>=◌, one_or_none, or_fail, transact, is_ok, Achieves,
  Achieves-late, Achieves-lift, Achieves-transact, Refuses, Refuses-lift, Refuses-bind,
  Refuses-transact,
}
use memory_hub.AuthService.Grants.{
  Env, TokenResponse, need, revoke, revoke_in, is_live, find_and_rotate, given, bad_request,
  find_refresh_token, rotate, handle_refresh_token,
}
use memory_hub.AuthService.Endpoint.{TokenRequest, Platform, Call, token, token_endpoint, step, run}
use memory_hub.AuthService.Frames.{
  Preserves-need, Preserves-lookup_client, Preserves-check_secret, Preserves-issue,
}
use memory_hub.AuthService.Revoked.{
  IsRevoked, adds, has_hash, is_usable, revoke-present, revoked_dead, run-revoked,
}

module _ (crypto : Crypto) (settings : Settings) (env : Env) where
  rotate_revokes :
      (client : OAuthClient) (stored : RefreshToken) (h : Text) (db : Db)
      → stored.token_hash ≡ h
      → any (has_hash h) db.refresh_tokens ≡ true
      → is_ok (rotate crypto settings env client stored db).0 ≡ true
      → IsRevoked h (rotate crypto settings env client stored db).1
  unfolding rotate guard revoke update_tokens ◌>>=◌
  rotate_revokes client stored h db same there done =
      elim (Bool-cases (stored.client_id == client.client_id)) [
        | inr other ↦ cc (rw other at done)
        | inl mine ↦ rw mine (
            (Preserves-issue crypto settings env (adds h) client.client_id _ stored.subject
                stored.tenant_id).at
              (record db { refresh_tokens = revoke_in stored.token_hash env.now db.refresh_tokens })
              (record {
                present = revoke-present h stored.token_hash env.now db.refresh_tokens ∙ there;
                dead =
                    subst (λ t. any (is_usable h) (revoke_in t env.now db.refresh_tokens) ≡ false)
                      (sym same) (revoked_dead h env.now db.refresh_tokens);
              }))
      ]

  live_head :
      (h : Text) (xs rest : List RefreshToken) (x : RefreshToken)
      → keep (is_live h env.now) xs ≡ x ∷ rest
      → (x.token_hash ≡ h) × (any (has_hash h) xs ≡ true)
  unfolding is_live
  live_head h [] rest x e = cc
  live_head h (y ∷ ys) rest x e = elim (Bool-cases (is_live h env.now y)) [
    | inl live ↦
        let first : y ≡ x = ground arith in
        let hit = (==_iff y.token_hash h).0 (ground arith) in
        (subst (λ (t : RefreshToken). t.token_hash ≡ h) first hit, ground arith)
    | inr dead ↦
        let later = live_head h ys rest x (rw dead at e) in (later.0, ground (arith, later.1))
  ]

  not_live :
      (h : Text) (xs : List RefreshToken)
      → any (is_usable h) xs ≡ false
      → keep (is_live h env.now) xs ≡ []
  unfolding is_live
  not_live h [] e = refl
  not_live h (x ∷ xs) e = ground (arith, not_live h xs)

  revoked_refused :
      (client : OAuthClient) (h : Text)
      → Refuses (IsRevoked h) (find_and_rotate crypto settings env client h)
  unfolding find_and_rotate find_refresh_token gets lift ◌>>=◌ one_or_none or_fail
  revoked_refused client h = record { at = λ db s. rw (not_live h db.refresh_tokens s.dead) refl }

  refresh_revokes :
      (client : OAuthClient) (h : Text)
      → Achieves (IsRevoked h) (find_and_rotate crypto settings env client h)
  unfolding find_and_rotate find_refresh_token gets lift ◌>>=◌ one_or_none or_fail
  refresh_revokes client h = record {
    at = λ db done. with_rows db (keep (is_live h env.now) db.refresh_tokens) refl done;
  }
    where
      with_rows :
          (db : Db) (rows : List RefreshToken)
          → keep (is_live h env.now) db.refresh_tokens ≡ rows
          → is_ok (find_and_rotate crypto settings env client h db).0 ≡ true
          → IsRevoked h (find_and_rotate crypto settings env client h db).1
      with_rows db [] e done = cc (rw e at done)
      with_rows db (x ∷ []) e done =
          let (same, there) = live_head h db.refresh_tokens [] x e in
          rw e (rotate_revokes client x h db same there (rw e at done))
      with_rows db (x ∷ y ∷ rest) e done = cc (rw e at done)

  need_value :
      (v : Option Text) (raw a : Text)
      → given v ≡ some raw
      → or_fail (given v) bad_request ≡ ok a
      → raw ≡ a
  unfolding or_fail
  need_value v raw a e h = ground arith

  module _ (r : TokenRequest) (raw : Text) (value : given r.refresh_token ≡ some raw) where
    abbrev refresh : Tx TokenResponse
    refresh = handle_refresh_token crypto settings env r.client_id r.client_secret r.refresh_token

    abbrev IsUsedUp : Db → Type 0
    IsUsedUp = IsRevoked (crypto.sha256_hex raw)

    refresh_uses : Achieves IsUsedUp refresh
    unfolding handle_refresh_token need
    refresh_uses = Achieves-late _ _ λ id. Achieves-lift _ _ λ raw' e. Achieves-late _ _ λ client.
        Achieves-late _ _ λ _.
          subst
            (λ t.
              Achieves IsUsedUp (find_and_rotate crypto settings env client (crypto.sha256_hex t)))
            (need_value r.refresh_token raw raw' value e)
            (refresh_revokes client (crypto.sha256_hex raw))

    refresh_refused : Refuses IsUsedUp refresh
    unfolding handle_refresh_token need
    refresh_refused = Refuses-bind _ _ (Preserves-need r.client_id) λ id. Refuses-lift _ _ λ raw' e.
        Refuses-bind _ _ (Preserves-lookup_client id) λ client.
          Refuses-bind _ _ (Preserves-check_secret crypto client r.client_secret) λ _.
            subst
              (λ t.
                Refuses IsUsedUp (find_and_rotate crypto settings env client (crypto.sha256_hex t)))
              (need_value r.refresh_token raw raw' value e)
              (revoked_refused client (crypto.sha256_hex raw))

    refresh_grant :
        (platform : Platform)
        → r.grant_type ≡ codes "refresh_token"
        → token_endpoint crypto settings platform env r ≡ refresh
    unfolding token_endpoint text_beq
    refresh_grant platform grant = rw grant refl

-- Once a refresh token has been exchanged, no later request with a token of the same digest gets
-- any, whoever sends it: not after any history of token requests, authorizations, callbacks and
-- cleanups, whatever random values they draw.
pub refresh_used_once :
    (crypto : Crypto) (settings : Settings) (platform : Platform) (env later_env : Env)
    (first second : TokenRequest) (raw again : Text) (db : Db) (between : List Call)
    → first.grant_type ≡ codes "refresh_token"
    → second.grant_type ≡ codes "refresh_token"
    → given first.refresh_token ≡ some raw
    → given second.refresh_token ≡ some again
    → crypto.sha256_hex again ≡ crypto.sha256_hex raw
    → is_ok (transact (token_endpoint crypto settings platform env first) db).0 ≡ true
    → let after =
        run crypto settings platform (step crypto settings platform db (token env first)) between in
      is_ok (transact (token_endpoint crypto settings platform later_env second) after).0 ≡ false
unfolding step
refresh_used_once crypto settings platform env later_env first second raw again db between g h v w
      same done =
    let after =
      run crypto settings platform (step crypto settings platform db (token env first)) between in
    let first_done =
      subst (λ m. is_ok (transact m db).0 ≡ true)
        (refresh_grant crypto settings env first raw v platform g) done in
    let used_up =
      subst (λ m. IsRevoked (crypto.sha256_hex raw) (transact m db).1)
        (sym (refresh_grant crypto settings env first raw v platform g))
        (Achieves-transact _ (refresh_uses crypto settings env first raw v) db first_done) in
    rw (refresh_grant crypto settings later_env second again w platform h) (
      Refuses-transact _ (refresh_refused crypto settings later_env second again w) after (
        subst (λ t. IsRevoked t after) (sym same)
          (run-revoked (crypto.sha256_hex raw) crypto settings platform _ between used_up)))
