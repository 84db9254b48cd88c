-- ===== src/Storage/Transaction.antt =====
-- `_transaction` of app/dal/db/store.py: a block that runs against the database and either commits
-- or raises, and is rolled back where it raises. An exception that is no StoreError keeps its
-- place as one with the code 500, which is what `store_call` shows of it. `calling` adds what a closed
-- store and a failing database do; only the worker of the batches is modelled with it.
use network_gateway_api.Prelude.{Bool, true, false, Option, none, some, Outcome, ok, err}
use network_gateway_api.Storage.Errors.{StoreError, store_error_code}

abbrev pub uncaught : StoreError
uncaught = store_error_code "" 500

-- The body of a `with self._transaction() as db` block
abbrev pub Tx : Type 0 → Type 0 → Type 0
Tx S A = S → Outcome StoreError (A × S)

module _ {S A : Type 0} where
  abbrev pub pure : A → Tx S A
  pure a s = ok (a, s)

  abbrev pub fail : StoreError → Tx S A
  fail e s = err e

  -- A computation that neither reads nor writes the database.
  abbrev pub lift : Outcome StoreError A → Tx S A
  lift (ok a) s = ok (a, s)
  lift (err e) s = err e

  abbrev pub gets : (S → A) → Tx S A
  gets f s = ok (f s, s)

  abbrev pub or_raise : StoreError → Option A → Tx S A
  or_raise e none s = err e
  or_raise e (some a) s = ok (a, s)

  -- What the database is after the block, and what the caller gets.
  abbrev pub commit : Outcome StoreError (A × S) → S → Outcome StoreError A × S
  commit (ok (a, s')) s = (ok a, s')
  commit (err e) s = (err e, s)

  -- On an open store whose database does what it is asked
  unfoldable pub transaction : Tx S A → S → Outcome StoreError A × S
  transaction m s = commit (m s) s

-- How a store is when a block begins: it works, it was closed, or its database raises a
-- SQLAlchemyError other than an IntegrityError by the end of the block.
pub data Condition : Type 0 where
  working closed failing : Condition

abbrev pub store_closed : StoreError
store_closed = store_error_code "Gateway store is closed." 503

abbrev pub database_failed : StoreError
database_failed = store_error_code "Gateway database operation failed." 503

module _ {S A : Type 0} where
  -- What a call of an operation gives: a closed store begins no block, and a database that fails
  -- rolls it back.
  unfoldable pub calling : Condition → S → Outcome StoreError A × S → Outcome StoreError A × S
  calling working s r = r
  calling closed s r = (err store_closed, s)
  calling failing s r = (err database_failed, s)

module _ {S : Type 0} where
  abbrev pub puts : (S → S) → Tx S (Unit {0})
  puts f s = ok (tt, f s)

  abbrev pub require : Bool → StoreError → Tx S (Unit {0})
  require true e s = ok (tt, s)
  require false e s = err e

module _ {S A B : Type 0} where
  infixl 5 ◌>>=◌
  abbrev pub ◌>>=◌ : Tx S A → (A → Tx S B) → Tx S B
  ◌>>=◌ m f s = elim (m s) [ ok (a, s') ↦ f a s' | err e ↦ err e ]

module _ {S B : Type 0} where
  infixl 5 ◌>>◌
  abbrev pub ◌>>◌ : Tx S (Unit {0}) → Tx S B → Tx S B
  m >> k = m >>= λ _. k
