-- ===== src/AuthService/Frames.antt =====
-- What a request of the token endpoint cannot break: whatever its writes preserve (routes/token.py).
use memory_hub.Base.{ℕ, Text, Option, text_eq}
use memory_hub.AuthService.{
  OAuthClient, RefreshToken, AuthSession, Db, Settings, AccessClaims, Crypto,
}
use memory_hub.AuthService.Tx.{Preserves, preserves_rules}
use memory_hub.AuthService.Grants.{
  Env, need, lookup_client, authenticate_client, check_secret, add_refresh_token, revoke,
  claim_code, claim_and_redeem, find_and_rotate, issue, find_refresh_token, rotate, redeem,
  handle_client_credentials, handle_refresh_token, handle_authorization_code,
}
use memory_hub.AuthService.Endpoint.{TokenRequest, Platform, handle_token_exchange, token_endpoint}

module _ {P : Db → Type 0} where
  pub Preserves-need : (v : Option Text) → Preserves P (need v)
  unfolding need
  Preserves-need v = search preserves_rules

  pub Preserves-lookup_client : (id : Text) → Preserves P (lookup_client id)
  unfolding lookup_client
  Preserves-lookup_client id = search preserves_rules

  module _ (crypto : Crypto) where
    Preserves-authenticate_client :
        (id secret : Text) → Preserves P (authenticate_client crypto id secret)
    unfolding authenticate_client
    Preserves-authenticate_client id secret = search (preserves_rules, Preserves-lookup_client)

    pub Preserves-check_secret :
        (c : OAuthClient) (s : Option Text) → Preserves P (check_secret crypto c s)
    unfolding check_secret
    Preserves-check_secret c s = search (preserves_rules, Preserves-need)

    module _ (settings : Settings) (env : Env)
        (adds : (rt : RefreshToken) → Preserves P (add_refresh_token rt)) where
      pub Preserves-issue :
          (id : Text) (c : AccessClaims) (s t : Text)
          → Preserves P (issue crypto settings env id c s t)
      unfolding issue
      Preserves-issue id c s t = search (preserves_rules, adds)

      pub Preserves-redeem :
          (id uri v : Text) (s : AuthSession) → Preserves P (redeem crypto settings env id uri v s)
      unfolding redeem
      Preserves-redeem id uri v s = search (preserves_rules, Preserves-issue) depth 20

      module _ (revokes : (hash : Text) (now : ℕ) → Preserves P (revoke hash now))
          (claims : (hash : Text) (now : ℕ) → Preserves P (claim_code hash now))
          (platform : Platform) where
        pub Preserves-token_endpoint :
            (r : TokenRequest) → Preserves P (token_endpoint crypto settings platform env r)
        unfolding token_endpoint handle_client_credentials handle_refresh_token
            handle_authorization_code handle_token_exchange find_refresh_token find_and_rotate
            rotate claim_and_redeem
        Preserves-token_endpoint r =
            search
              (
                preserves_rules, Preserves-need, Preserves-lookup_client,
                Preserves-authenticate_client, Preserves-check_secret, Preserves-issue,
                Preserves-redeem, revokes, claims,
              )
              depth 30
