-- ===== src/AuthService/Tx.antt =====
-- database.py: a request works in a session of its own. It may raise; a session that is closed
-- without a commit rolls back, so the tables are then as they were.
use memory_hub.Base.{Bool, true, false, Option, none, some, List, [], ◌∷◌, ◌≡◌, refl, if◌then◌else◌}
use memory_hub.AuthService.{RefreshToken, AuthSession, Db, Failure, multiple_results}

pub data Result {ℓ} (A : Type ℓ) : Type ℓ where
  ok : A → Result A
  err : Failure → Result A

abbrev pub is_ok {ℓ} : {A : Type ℓ} → Result A → Bool
is_ok (ok a) = true
is_ok (err f) = false

-- What a handler does in its session: the tables as it left them stand beside the error too.
abbrev pub Tx : Type 0 → Type 0
Tx A = Db → Result A × Db

module _ {A : Type 0} where
  unfoldable pub pure : A → Tx A
  pure a db = (ok a, db)

  unfoldable pub raise : Failure → Tx A
  raise f db = (err f, db)

  unfoldable pub lift : Result A → Tx A
  lift r db = (r, db)

unfoldable pub gets : {A : Type 0} → (Db → A) → Tx A
gets f db = (ok (f db), db)

-- A statement that changes the rows of one table.
unfoldable pub update_tokens : (List RefreshToken → List RefreshToken) → Tx (Unit {0})
update_tokens f db = (ok tt, record db { refresh_tokens = f db.refresh_tokens })

unfoldable pub update_sessions : (List AuthSession → List AuthSession) → Tx (Unit {0})
update_sessions f db = (ok tt, record db { auth_sessions = f db.auth_sessions })

unfoldable pub guard : Bool → Failure → Tx (Unit {0})
guard b f db = (if b then ok tt else err f, db)

module _ {A B : Type 0} where
  abbrev and_then : Result A → (A → Tx B) → Tx B
  and_then (ok a) f db = f a db
  and_then (err e) f db = (err e, db)

  infixl 10 ◌>>=◌ ◌>>◌
  unfoldable pub ◌>>=◌ : Tx A → (A → Tx B) → Tx B
  ◌>>=◌ m f db = let (r, db') = m db in and_then r f db'

  abbrev pub ◌>>◌ : Tx A → Tx B → Tx B
  m >> n = m >>= λ _. n

-- `scalar_one_or_none()`
unfoldable pub one_or_none : {A : Type 0} → List A → Result (Option A)
one_or_none [] = ok none
one_or_none (x ∷ []) = ok (some x)
one_or_none (x ∷ y ∷ rest) = err multiple_results

unfoldable pub or_fail : {A : Type 0} → Option A → Failure → Result A
or_fail none f = err f
or_fail (some a) f = ok a

-- The end of the session.
unfoldable pub transact : {A : Type 0} → Tx A → Db → Result A × Db
transact m db = let (r, db') = m db in (r, if is_ok r then db' else db)

-- `P` holds afterwards if it held before, whether the action returns or raises.
pub record Preserves {A : Type 0} (P : Db → Type 0) (m : Tx A) : Type 0 where
  pub at : (db : Db) → P db → P (m db).1

-- `P` holds afterwards if the action returns.
pub record Achieves {A : Type 0} (P : Db → Type 0) (m : Tx A) : Type 0 where
  pub at : (db : Db) → is_ok (m db).0 ≡ true → P (m db).1

-- The action raises wherever `P` holds.
pub record Refuses {A : Type 0} (P : Db → Type 0) (m : Tx A) : Type 0 where
  pub at : (db : Db) → P db → is_ok (m db).0 ≡ false

module _ {A : Type 0} {P : Db → Type 0} where
  pub Preserves-pure : (a : A) → Preserves P (pure a)
  unfolding pure
  Preserves-pure a = record { at = λ db h. h }

  pub Preserves-raise : (f : Failure) → Preserves P (raise {A = A} f)
  unfolding raise
  Preserves-raise f = record { at = λ db h. h }

  pub Preserves-lift : (r : Result A) → Preserves P (lift r)
  unfolding lift
  Preserves-lift r = record { at = λ db h. h }

  pub Preserves-gets : (f : Db → A) → Preserves P (gets f)
  unfolding gets
  Preserves-gets f = record { at = λ db h. h }

  pub Preserves-if :
      (b : Bool) (m n : Tx A) → Preserves P m → Preserves P n → Preserves P (if b then m else n)
  Preserves-if true m n k l = k
  Preserves-if false m n k l = l

  pub Preserves-transact : (m : Tx A) → Preserves P m → (db : Db) → P db → P (transact m db).1
  unfolding transact
  Preserves-transact m k db h = settled (m db).0 (k.at db h)
    where
      settled : (r : Result A) → P (m db).1 → P (if is_ok r then (m db).1 else db)
      settled (ok a) p = p
      settled (err f) p = h

pub Preserves-guard : {P : Db → Type 0} (b : Bool) (f : Failure) → Preserves P (guard b f)
unfolding guard
Preserves-guard b f = record { at = λ db h. h }

module _ {A B : Type 0} {P : Db → Type 0} where
  after_result :
      (r : Result A) (f : A → Tx B) (db : Db)
      → ((a : A) → Preserves P (f a))
      → P db
      → P (and_then r f db).1
  after_result (ok a) f db k h = (k a).at db h
  after_result (err e) f db k h = h

  pub Preserves-bind :
      (m : Tx A) (f : A → Tx B)
      → Preserves P m
      → ((a : A) → Preserves P (f a))
      → Preserves P (m >>= f)
  unfolding ◌>>=◌
  Preserves-bind m f km kf = record {
    at = λ db h. after_result (m db).0 f (m db).1 kf (km.at db h);
  }

  late_result :
      (r : Result A) (f : A → Tx B) (db : Db)
      → ((a : A) → Achieves P (f a))
      → is_ok (and_then r f db).0 ≡ true
      → P (and_then r f db).1
  late_result (ok a) f db k h = (k a).at db h
  late_result (err e) f db k h = cc

  -- It is done by what follows.
  pub Achieves-late :
      (m : Tx A) (f : A → Tx B) → ((a : A) → Achieves P (f a)) → Achieves P (m >>= f)
  unfolding ◌>>=◌
  Achieves-late m f kf = record { at = λ db h. late_result (m db).0 f (m db).1 kf h }

  early_result :
      (r : Result A) (f : A → Tx B) (db : Db)
      → ((a : A) → Preserves P (f a))
      → (is_ok r ≡ true → P db)
      → is_ok (and_then r f db).0 ≡ true
      → P (and_then r f db).1
  early_result (ok a) f db k p h = (k a).at db (p refl)
  early_result (err e) f db k p h = cc

  -- It is done by the first step and lasts.
  pub Achieves-early :
      (m : Tx A) (f : A → Tx B)
      → Achieves P m
      → ((a : A) → Preserves P (f a))
      → Achieves P (m >>= f)
  unfolding ◌>>=◌
  Achieves-early m f am kf = record {
    at = λ db h. early_result (m db).0 f (m db).1 kf (am.at db) h;
  }

  -- The same where the first step gives a value that is known.
  pub Achieves-lift :
      (r : Result A) (f : A → Tx B)
      → ((a : A) → r ≡ ok a → Achieves P (f a))
      → Achieves P (lift r >>= f)
  unfolding ◌>>=◌ lift
  Achieves-lift (ok a) f k = record { at = (k a refl).at }
  Achieves-lift (err e) f k = record { at = λ db h. cc }

  pub Refuses-lift :
      (r : Result A) (f : A → Tx B)
      → ((a : A) → r ≡ ok a → Refuses P (f a))
      → Refuses P (lift r >>= f)
  unfolding ◌>>=◌ lift
  Refuses-lift (ok a) f k = record { at = (k a refl).at }
  Refuses-lift (err e) f k = record { at = λ db h. refl }

  refused :
      (r : Result A) (f : A → Tx B) (db : Db)
      → ((a : A) → Refuses P (f a))
      → P db
      → is_ok (and_then r f db).0 ≡ false
  refused (ok a) f db k h = (k a).at db h
  refused (err e) f db k h = refl

  pub Refuses-bind :
      (m : Tx A) (f : A → Tx B) → Preserves P m → ((a : A) → Refuses P (f a)) → Refuses P (m >>= f)
  unfolding ◌>>=◌
  Refuses-bind m f km kf = record { at = λ db h. refused (m db).0 f (m db).1 kf (km.at db h) }

module _ {A : Type 0} {P : Db → Type 0} where
  pub Achieves-transact :
      (m : Tx A) → Achieves P m → (db : Db) → is_ok (transact m db).0 ≡ true → P (transact m db).1
  unfolding transact
  Achieves-transact m k db h = rw h (k.at db h)

  pub Refuses-transact :
      (m : Tx A) → Refuses P m → (db : Db) → P db → is_ok (transact m db).0 ≡ false
  unfolding transact
  Refuses-transact m k db h = k.at db h

pub ruleset preserves_rules = (
  Preserves-pure, Preserves-raise, Preserves-lift, Preserves-gets, Preserves-guard, Preserves-if,
  Preserves-bind,
)
