-- ===== src/Secrets/Vault.antt =====
-- `SecretVault` of app/dal/db/secrets.py: Fernet over the JSON text of a value. Neither is code of
-- the repository, so the two operations are an interface; `decrypt` gives `none` where the token
-- was not made under the key. That a token opens to what it was made from is a hypothesis of the
-- theorems that rely on it.
use network_gateway_api.Prelude.{String, Option}

pub record Vault (A : Type 0) : Type 0 where
  pub encrypt : A → String
  pub decrypt : String → Option A
