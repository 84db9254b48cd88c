-- ===== src/Storage/Post.antt =====
-- What holds of the database after a block that commits, by the steps of the block.
use network_gateway_api.Prelude.{◌≡◌, refl, Bool, true, false, Option, none, some, Outcome, ok, err}
use network_gateway_api.Storage.Errors.{StoreError}
use network_gateway_api.Storage.Transaction.{
  Tx, lift, or_raise, require, commit, transaction, ◌>>=◌, ◌>>◌,
}

-- `Q` holds if the block does not raise.
abbrev pub Post : {S A : Type 0} → (A → S → Type 0) → Outcome StoreError (A × S) → Type 0
Post Q (ok (a, s)) = Q a s
Post Q (err e) = Unit

module _ {S A B : Type 0} (Q : B → S → Type 0) where
  pub Post-bind :
      (m : Tx S A) (f : A → Tx S B) (s : S)
      → ((a : A) (s' : S) → m s ≡ ok (a, s') → Post Q (f a s'))
      → Post Q ((m >>= f) s)
  Post-bind m f s h = go (m s) h
    where
      go :
          (r : Outcome StoreError (A × S))
          → ((a : A) (s' : S) → r ≡ ok (a, s') → Post Q (f a s'))
          → Post Q (elim r [ ok (a, s') ↦ f a s' | err e ↦ err e ])
      go (ok (a, s')) k = k a s' refl
      go (err e) k = tt

  pub Post-or_raise :
      (e : StoreError) (o : Option A) (f : A → Tx S B) (s : S)
      → ((a : A) → o ≡ some a → Post Q (f a s))
      → Post Q ((or_raise e o >>= f) s)
  Post-or_raise e none f s h = tt
  Post-or_raise e (some a) f s h = h a refl

  pub Post-lift :
      (r : Outcome StoreError A) (f : A → Tx S B) (s : S)
      → ((a : A) → r ≡ ok a → Post Q (f a s))
      → Post Q ((lift r >>= f) s)
  Post-lift (ok a) f s h = h a refl
  Post-lift (err e) f s h = tt

module _ {S B : Type 0} (Q : B → S → Type 0) where
  pub Post-require :
      (b : Bool) (e : StoreError) (k : Tx S B) (s : S)
      → (b ≡ true → Post Q (k s))
      → Post Q ((require b e >> k) s)
  Post-require true e k s h = h refl
  Post-require false e k s h = tt

-- After a transaction the state is as before or what a committed block left.
pub transaction-keeps :
    {S A : Type 0} (P : S → Type 0) (m : Tx S A) (s : S)
    → P s
    → Post (λ a s'. P s') (m s)
    → P (transaction m s).1
unfolding transaction
transaction-keeps {S} {A} P m s before after = go (m s) after
  where
    go : (r : Outcome StoreError (A × S)) → Post (λ a s'. P s') r → P (commit r s).1
    go (ok (a, s')) q = q
    go (err e) q = before

-- What a raising transaction leaves: the database that it found.
pub transaction-err :
    {S A : Type 0} (m : Tx S A) (s : S) {e : StoreError}
    → (transaction m s).0 ≡ err e
    → (transaction m s).1 ≡ s
unfolding transaction
transaction-err {S} {A} m s {e} h = go (m s) h
  where
    go : (r : Outcome StoreError (A × S)) → (commit r s).0 ≡ err e → (commit r s).1 ≡ s
    go (ok (a, s')) q = cc
    go (err e') q = refl
