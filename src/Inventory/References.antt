-- ===== src/Inventory/References.antt =====
-- A deletion in app/dal/db/store.py leaves no reference to a row that is gone.
use network_gateway_api.Prelude.{
  ◌≡◌, ◌∙◌, false, not, Option, none, some, List, [], ◌∷◌, String, str_eq, any, All, arith,
  Bool-cases, inl, inr, eq-false_of_not, eq_iff,
}
use network_gateway_api.Value.{Value, Fields}
use network_gateway_api.Secrets.Vault.{Vault}
use network_gateway_api.Storage.Errors.{not_found}
use network_gateway_api.Storage.Tables.{find, remove, find-remove}
use network_gateway_api.Storage.Post.{Post, Post-or_raise, Post-require, transaction-keeps}
use network_gateway_api.Inventory.Rows.{Inventory, role_key, proxy_key, connection_key}
use network_gateway_api.Inventory.Operations.{
  Resource, role_accounts, proxies, connections, refers, delete_block, delete,
}

-- A reference is empty, or its row is there.
abbrev pub IsFound : {R : Type 0} → (R → String) → Option String → List R → Type 0
IsFound key none rows = Unit
IsFound {R} key (some id) rows = (row : R) × (find key id rows ≡ some row)

-- The foreign keys hold.
pub record IsConsistent (db : Inventory) : Type 0 where
  pub roles_of_connections : All (λ c. IsFound role_key c.role_account_id db.roles) db.connections
  pub proxies_of_connections : All (λ c. IsFound proxy_key c.proxy_id db.proxies) db.connections
  pub roles_of_proxies : All (λ p. IsFound role_key p.role_account_id db.roles) db.proxies

IsFound-remove :
    {R : Type 0} (key : R → String) (r : Option String) (id : String) (rows : List R)
    → refers r id ≡ false
    → IsFound key r rows
    → IsFound key r (remove key id rows)
IsFound-remove key none id rows h f = tt
IsFound-remove key (some r) id rows h (row, f) =
    let other : str_eq id r ≡ false = ground (arith, eq_iff id r, eq_iff r id) in
    (row, find-remove key id r rows ∙ rw other f)

All-IsFound :
    {R S : Type 0} (key : R → String) (ref : S → Option String) (id : String) (rows : List R)
    (users : List S)
    → any (λ u. refers (ref u) id) users ≡ false
    → All (λ u. IsFound key (ref u) rows) users
    → All (λ u. IsFound key (ref u) (remove key id rows)) users
All-IsFound key ref id rows [] h fs = tt
All-IsFound key ref id rows (u ∷ users) h (f, fs) =
    let here : refers (ref u) id ≡ false = ground arith in
    let there : any (λ v. refers (ref v) id) users ≡ false = ground arith in
    (IsFound-remove key (ref u) id rows here f, All-IsFound key ref id rows users there fs)

All-remove :
    {S : Type 0} (key : S → String) (P : S → Type 0) (id : String) (rows : List S)
    → All P rows
    → All P (remove key id rows)
unfolding remove
All-remove key P id [] ps = tt
All-remove key P id (row ∷ rows) (p, ps) = elim (Bool-cases (str_eq (key row) id)) [
  | inl e ↦ rw e (All-remove key P id rows ps)
  | inr e ↦ rw e (p, All-remove key P id rows ps)
]

module _ (vault : Vault Fields) (key_error : Value → Value → Option String) where
  delete_block-IsConsistent :
      (resource : Resource) (id : String) (db : Inventory)
      → IsConsistent db
      → Post (λ _ db'. IsConsistent db') (delete_block vault key_error resource id db)
  unfolding delete_block
  delete_block-IsConsistent role_accounts id db c =
      Post-or_raise _ not_found (find role_key id db.roles) _ db λ row found.
        Post-require _ (not (any (λ u. refers u.role_account_id id) db.connections)) _ _ db λ free.
          Post-require _ (not (any (λ u. refers u.role_account_id id) db.proxies)) _ _ db λ free'.
            record {
              roles_of_connections =
                  All-IsFound role_key (λ u. u.role_account_id) id db.roles db.connections
                    (eq-false_of_not _ free) c.roles_of_connections;
              proxies_of_connections = c.proxies_of_connections;
              roles_of_proxies =
                  All-IsFound role_key (λ u. u.role_account_id) id db.roles db.proxies
                    (eq-false_of_not _ free') c.roles_of_proxies;
            }
  delete_block-IsConsistent proxies id db c =
      Post-or_raise _ not_found (find proxy_key id db.proxies) _ db λ row found.
        Post-require _ (not (any (λ u. refers u.proxy_id id) db.connections)) _ _ db λ free.
          record {
            roles_of_connections = c.roles_of_connections;
            proxies_of_connections =
                All-IsFound proxy_key (λ u. u.proxy_id) id db.proxies db.connections
                  (eq-false_of_not _ free) c.proxies_of_connections;
            roles_of_proxies = All-remove proxy_key _ id db.proxies c.roles_of_proxies;
          }
  delete_block-IsConsistent connections id db c =
      Post-or_raise _ not_found (find connection_key id db.connections) _ db λ row found. record {
        roles_of_connections = All-remove connection_key _ id db.connections c.roles_of_connections;
        proxies_of_connections =
            All-remove connection_key _ id db.connections c.proxies_of_connections;
        roles_of_proxies = c.roles_of_proxies;
      }

  -- If each role account and proxy that a row names is there, the same holds after any deletion:
  -- a role account or proxy that is still in use is not deleted.
  pub delete-IsConsistent :
      (resource : Resource) (id : String) (db : Inventory)
      → IsConsistent db
      → IsConsistent (delete vault key_error resource id db).1
  unfolding delete
  delete-IsConsistent resource id db c =
      transaction-keeps IsConsistent (delete_block vault key_error resource id) db c
        (delete_block-IsConsistent resource id db c)
