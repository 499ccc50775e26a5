-- ===== src/AuthService/Granted.antt =====
-- The tokens of the client-credentials grant (routes/token.py, `_handle_client_credentials`).
use memory_hub.Base.{
  Text, true, false, Option, some, List, text_eq, contains, ◌≡◌, ◌⊎◌, Option-cases, inl, inr, refl,
  arith,
}
use memory_hub.AuthService.{OAuthClient, Db, Settings, Crypto, AccessClaims}
use memory_hub.AuthService.Tx.{Result, ok, err, Tx, pure, lift, ◌>>=◌, or_fail}
use memory_hub.AuthService.Grants.{
  Env, TokenResponse, given, need, authenticate_client, respond, issue, handle_client_credentials,
}
use memory_hub.AuthService.ScopeLimits.{asked, resolve_scopes-within}

module _ {A B : Type 0} where
  -- What returned has gone through both parts.
  pub record Parts (m : Tx A) (f : A → Tx B) (db : Db) (b : B) : Type 0 where
    pub value : A
    pub first : (m db).0 ≡ ok value
    pub second : (f value (m db).1).0 ≡ ok b

  returned-Parts :
      (m : Tx A) (f : A → Tx B) (db : Db) (b : B) → ((m >>= f) db).0 ≡ ok b → Parts m f db b
  unfolding ◌>>=◌
  returned-Parts m f db b e = split ((m db).0) refl
    where
      split : (r : Result A) → (m db).0 ≡ r → Parts m f db b
      split (ok a) g = record { value = a; first = g; second = rw g at e }
      split (err x) g = absurd (let bad = rw g at e in ground (arith, bad))

given_needed :
    (value : Option Text) (db : Db) (text : Text)
    → (need value db).0 ≡ ok text
    → given value ≡ some text
unfolding need lift or_fail
given_needed value db text e = elim (Option-cases (given value)) [
  | inl f ↦ absurd (let bad = rw f at e in ground (arith, bad))
  | inr (x, f) ↦ let same = rw f at e in ground (arith, f, same)
]

module _ (crypto : Crypto) (settings : Settings) (env : Env) where
  issued :
      (client_id subject tenant_id : Text) (claims : AccessClaims) (db : Db)
      (response : TokenResponse)
      → (issue crypto settings env client_id claims subject tenant_id db).0 ≡ ok response
      → respond crypto settings env claims ≡ response
  unfolding issue pure
  issued client_id subject tenant_id claims db response e =
      let parts = returned-Parts _ _ db response e in ground (arith, parts.second)

  -- The response is that of a client whom the credentials authenticate, for a list of scopes which the
  -- access token has as well.
  pub record IsGranted (client_id client_secret scope : Option Text) (db : Db)
      (response : TokenResponse) : Type 0 where
    pub id : Text
    pub secret : Text
    pub client : OAuthClient
    pub scopes : List Text
    pub named : given client_id ≡ some id
    pub shown : given client_secret ≡ some secret
    pub authenticated : (authenticate_client crypto id secret db).0 ≡ ok client
    pub answer :
        respond crypto settings env (record {
          subject = some client.client_id;
          identity_type = some client.identity_type;
          tenant_id = some client.tenant_id;
          scopes = scopes;
        })
        ≡ response
    pub exact :
        (s : Text)
        → (contains scopes s ≡ contains (asked scope client) s)
          × ((contains scopes s ≡ false) ⊎ (contains client.default_scopes s ≡ true))

  -- Where the client-credentials grant gives a response, the credentials authenticate a client, and
  -- the access token and the scope of the response have exactly the scopes that were asked for (all
  -- of the client's where none were), each of which is one of the client's.
  pub client_credentials-IsGranted :
      (client_id client_secret scope : Option Text) (db : Db) (response : TokenResponse)
      → (handle_client_credentials crypto settings env client_id client_secret scope db).0
        ≡ ok response
      → IsGranted client_id client_secret scope db response
  unfolding handle_client_credentials need lift
  client_credentials-IsGranted client_id client_secret scope db response e =
      let named = returned-Parts _ _ db response e in
      let shown = returned-Parts _ _ db response (named.second) in
      let known = returned-Parts _ _ db response (shown.second) in
      let resolved = returned-Parts _ _ _ response (known.second) in
      record {
        id = named.value;
        secret = shown.value;
        client = known.value;
        scopes = resolved.value;
        named = given_needed client_id db named.value (named.first);
        shown = given_needed client_secret db shown.value (shown.first);
        authenticated = known.first;
        answer = issued _ _ _ _ _ response (resolved.second);
        exact = resolve_scopes-within scope known.value resolved.value (resolved.first);
      }
